-- ===== src/Command/Evolve/Kept.antt =====
-- What an evolved run of minifleet/cli.py keeps as done.
use Prim.Native.String.{◌++◌ as append}
use minifleet.Prelude.{
  String, ◌≡◌, refl, sym, subst, ◌⊎◌, inl, inr, Bool, true, false, none, some, List, [], ◌∷◌, map,
  any, is_empty, contains, filter, find, minus, dedup, sort_by, str_le, ◌==◌, ◌∙◌, if◌then◌else◌,
  eq_refl, ap, Has, All, Has-map, Has-sort_by_of, Has→contains, contains→Has, contains-dedup,
  contains-minus, Bool-cases, Option-cases, if-both, arith, eq_iff, All-of_Has,
}
use minifleet.Model.{IntentSpec, Component, Task, Design, eq_names}
use minifleet.Architect.Review.{ok, design}
use minifleet.Architect.Review.Waiting.{Waits}
use minifleet.Architect.Review.Promises.{design-Waits}
use minifleet.Scheduler.State.{Site, Fleet}
use minifleet.Scheduler.Wave.{refresh, refresh_tasks, promote, may_start, merged_ids}
use minifleet.Scheduler.Integrate.{find_last, has_id}
use minifleet.Scheduler.Steps.Tasks.{is_done}
use minifleet.Scheduler.Repair.{sorted_set}
use minifleet.Command.Evolve.{
  differs, changed_from, old_or, starts_over, carried, reset_changed, carry_all, component_ids,
  added_by, adopt, adopt_designed, evolve,
}

-- A task that was there before, under the name of a component that did not start over.
abbrev IsKept : List String → List String → List Task → Task → Type 0
IsKept added changed olds t =
    Has t olds
    × ((c : String) × (t.id ≡ append "T-" c)
        × (contains added c ≡ false)
        × (contains changed c ≡ false))

module _ (added changed : List String) (olds : List Task) where
  abbrev IsOld : Task → Type 0
  IsOld t = (is_done t ≡ false) ⊎ IsKept added changed olds t

  find_last-Has :
      (p : Task → Bool) (ts : List Task) (t : Task)
      → find_last p ts ≡ some t
      → Has t ts × (p t ≡ true)
  find_last-Has p [] t e = absurd (ground (arith, e))
  find_last-Has p (u ∷ ts) t e = elim (Bool-cases (any p ts)) [
    | inl n ↦ let (m, k) = find_last-Has p ts t (rw n at e) in (inr m, k)
    | inr n ↦ elim (Bool-cases (p u)) [
      | inl n2 ↦
          let same : some u ≡ some t = rw (n, n2) at e in
          let eq : u ≡ t = cc in (inl eq, rw eq at n2)
      | inr n2 ↦ let stuck : none ≡ some t = rw (n, n2) at e in absurd (ground (arith, stuck))
    ]
  ]

  old_or-IsOld : (t : Task) → Waits t → starts_over added changed t ≡ false → IsOld (old_or olds t)
  old_or-IsOld t (v, m) e =
      let name = append "T-" t.component_id in
      elim (Option-cases (find_last (has_id name) olds)) [
        | inl n ↦ subst IsOld (sym (kept n)) (inl (ground arith))
        | inr (u, n) ↦
            let (member, named) = find_last-Has (has_id name) olds u n in
            let same : u.id ≡ name = ground (arith, eq_iff u.id name) in
            subst IsOld (sym (replaced u n))
              (inr (member, (t.component_id, same, ground arith, ground arith)))
      ]
    where
      kept : find_last (has_id (append "T-" t.component_id)) olds ≡ none → old_or olds t ≡ t
      kept n = rw (old_or, n) refl

      replaced :
          (u : Task)
          → find_last (has_id (append "T-" t.component_id)) olds ≡ some u
          → old_or olds t ≡ u
      replaced u n = rw (old_or, n) refl

  carried-IsOld : (t : Task) → Waits t → IsOld (carried added changed olds t)
  carried-IsOld t (v, m) = elim (Bool-cases (starts_over added changed t)) [
    | inl e ↦ rw e (inl (ground arith))
    | inr e ↦ rw (carried, e) (old_or-IsOld t (v, m) e)
  ]

  reset-IsOld : (t : Task) → IsOld t → IsOld (reset_changed changed t)
  reset-IsOld t h = if-both IsOld (contains changed t.component_id) (inl refl) h

  carry_all-IsOld : (ts : List Task) → All Waits ts → All IsOld (carry_all added changed olds ts)
  unfolding carry_all
  carry_all-IsOld [] h = tt
  carry_all-IsOld (t ∷ ts) (k, h) = (reset-IsOld _ (carried-IsOld t k), carry_all-IsOld ts h)

  promoted-IsOld :
      (merged : List String) (ts : List Task) → All IsOld ts → All IsOld (map (promote merged) ts)
  promoted-IsOld merged [] h = tt
  promoted-IsOld merged (t ∷ ts) (k, h) =
      (if-both IsOld (may_start merged t) (inl refl) k, promoted-IsOld merged ts h)

  refresh-IsOld :
      (s : Site) (f : Fleet s) → All IsOld f.design.tasks → All IsOld (refresh f).design.tasks
  unfolding refresh refresh_tasks
  refresh-IsOld s f h =
      let ts = f.design.tasks in
      if-both (λ (g : Fleet s). All IsOld g.design.tasks)
        (is_empty (map (λ (t : Task). t.id) (filter (may_start (merged_ids ts)) ts))) h
        (promoted-IsOld (merged_ids ts) ts h)

  IsOld-mono :
      (P : Task → Type 0) (ts : List Task)
      → ((t : Task) → IsKept added changed olds t → P t)
      → All IsOld ts
      → All (λ t. (is_done t ≡ false) ⊎ P t) ts
  IsOld-mono P [] f h = tt
  IsOld-mono P (t ∷ ts) f (inl e, h) = (inl e, IsOld-mono P ts f h)
  IsOld-mono P (t ∷ ts) f (inr k, h) = (inr (f t k), IsOld-mono P ts f h)

-- A component of the new intent had a task before, and the first old component of its id has its
-- responsibility and, sorted, its paths.
abbrev pub IsSame : List Task → List Component → Component → Type 0
IsSame olds components n =
    (contains (component_ids olds) n.id ≡ true)
    × ((o : Component) × (find (λ (x : Component). x.id == n.id) components ≡ some o)
        × (o.responsibility ≡ n.responsibility)
        × (eq_names (sort_by str_le o.owns) (sort_by str_le n.owns) ≡ true))

-- A task that was there before, and bears the name of a component that stayed the same.
abbrev pub IsCarried : List Task → List Component → List Component → Task → Type 0
IsCarried olds components news t =
    Has t olds
    × ((c : String) × (t.id ≡ append "T-" c)
        × All (λ n. ((n.id == c) ≡ false) ⊎ IsSame olds components n) news)

contains-sorted_set :
    (xs : List String) (a : String) → contains xs a ≡ true → contains (sorted_set xs) a ≡ true
contains-sorted_set xs a h =
    Has→contains (sorted_set xs) a
      (Has-sort_by_of str_le a (dedup xs) (contains→Has (dedup xs) a (contains-dedup xs a ∙ h)))

added_by-known :
    (olds : List Task) (news : List Component) (n : Component)
    → Has n news
    → contains (added_by olds news) n.id ≡ false
    → contains (component_ids olds) n.id ≡ true
added_by-known olds news n m e =
    let ids = map (λ (c : Component). c.id) news in
    let named = Has→contains ids n.id (Has-map (λ (c : Component). c.id) n news m) in
    elim (Bool-cases (contains (component_ids olds) n.id)) [
      | inl k ↦ k
      | inr k ↦
          let fresh : contains (minus ids (component_ids olds)) n.id ≡ true =
            contains-minus ids (component_ids olds) n.id ∙ (rw (named, k) refl) in
          let listed = contains-sorted_set (minus ids (component_ids olds)) n.id fresh in
          absurd (ground (arith, listed, e))
    ]

unlisted :
    (d : Bool) (id a : String) (more changed : List String)
    → (if d then id ∷ more else more) ≡ changed
    → contains changed a ≡ false
    → (contains more a ≡ false) × ((d ≡ false) ⊎ ((id == a) ≡ false))
unlisted false id a more changed e l =
    (subst (λ (x : List String). contains x a ≡ false) (sym e) l, inl refl)
unlisted true id a more changed e l =
    let out : contains (id ∷ more) a ≡ false =
      subst (λ (x : List String). contains x a ≡ false) (sym e) l in
    (ground (arith, out), inr (ground (arith, out)))

module _ (ids : List String) (components : List Component) where
  abbrev Found : Component → Component → Type 0
  Found n o = find (λ (x : Component). x.id == n.id) components ≡ some o

  -- how the list of changed components grows by one component
  changed_from-step :
      (c : Component) (cs : List Component) (changed : List String)
      → changed_from ids components (c ∷ cs) ≡ some changed
      → ((contains ids c.id ≡ false) × (changed_from ids components cs ≡ some changed))
        ⊎ ((o : Component) × (more : List String) × Found c o
            × (changed_from ids components cs ≡ some more)
            × ((if differs o c then c.id ∷ more else more) ≡ changed))
  unfolding changed_from
  changed_from-step c cs changed e =
      let rest = changed_from ids components cs in
      elim (Bool-cases (contains ids c.id)) [
        | inr n ↦ inl (n, rw (changed_from, n) at e)
        | inl n ↦ elim (Option-cases (find (λ (x : Component). x.id == c.id) components)) [
          | inl k ↦
              let stuck : none ≡ some changed = rw (changed_from, n, k) at e in
              absurd (ground (arith, stuck))
          | inr (o, k) ↦ elim (Option-cases rest) [
            | inl l ↦
                let stuck : none ≡ some changed = rw (changed_from, n, k, l) at e in
                absurd (ground (arith, stuck))
            | inr (more, l) ↦
                let same : some (if differs o c then c.id ∷ more else more) ≡ some changed =
                  rw (changed_from, n, k, l) at e in
                inr (o, more, k, l, cc)
          ]
        ]
      ]

  -- a component that had a task and is not listed as changed does not differ from the old one
  changed_from-same :
      (news : List Component) (changed : List String) (n : Component)
      → changed_from ids components news ≡ some changed
      → Has n news
      → contains ids n.id ≡ true
      → contains changed n.id ≡ false
      → (o : Component) × Found n o × (differs o n ≡ false)
  changed_from-same [] changed n e m k l = absurd m
  changed_from-same (c ∷ cs) changed n e (inr m) k l = elim (changed_from-step c cs changed e) [
    | inl (a, b) ↦ changed_from-same cs changed n b m k l
    | inr (o, more, a, b, same) ↦
        changed_from-same cs more n b m k (unlisted (differs o c) c.id n.id more changed same l).0
  ]
  changed_from-same (c ∷ cs) changed n e (inl q) k l = elim (changed_from-step c cs changed e) [
    | inl (a, b) ↦ let k' : contains ids c.id ≡ true = rw q k in absurd (ground (arith, k', a))
    | inr (o, more, a, b, same) ↦ elim (unlisted (differs o c) c.id n.id more changed same l).1 [
      | inl d ↦
          subst (λ (x : Component). (o : Component) × Found x o × (differs o x ≡ false)) q (o, a, d)
      | inr d ↦
          let alike = eq_refl n.id in
          let named : c.id ≡ n.id = ap (λ (x : Component). x.id) q in
          absurd (ground (arith, d, named, alike))
    ]
  ]

same-parts :
    (o n : Component)
    → differs o n ≡ false
    → (o.responsibility ≡ n.responsibility)
      × (eq_names (sort_by str_le o.owns) (sort_by str_le n.owns) ≡ true)
unfolding differs
same-parts o n h = (
  let alike : (o.responsibility == n.responsibility) ≡ true = ground (arith, h) in
      (eq_iff o.responsibility n.responsibility).0 alike,
  ground (arith, h),
)

kept-IsCarried :
    (olds : List Task) (components news : List Component) (changed : List String)
    → changed_from (component_ids olds) components news ≡ some changed
    → (t : Task) → IsKept (added_by olds news) changed olds t
    → IsCarried olds components news t
kept-IsCarried olds components news changed e t (m, (c, named, old, unchanged)) = (
  m,
  (
    c,
    named,
    All-of_Has _ news (λ n k. elim (Bool-cases (n.id == c)) [
      | inr d ↦ inl d
      | inl d ↦
          let same : c ≡ n.id = sym ((eq_iff n.id c).0 d) in
          let known =
            added_by-known olds news n k
              (subst (λ x. contains (added_by olds news) x ≡ false) same old) in
          let (o, found, alike) =
            changed_from-same (component_ids olds) components news changed n e k known
              (subst (λ x. contains changed x ≡ false) same unchanged) in
          let (told, paths) = same-parts o n alike in inr (known, (o, found, told, paths))
    ]),
  ),
)

-- After an evolution each task that counts as verified or merged is a task of the run before, in the
-- same state, and bears the name of a component c. Each component of the new intent with that id had
-- a task before, and the first component with that id in the old design has the same responsibility
-- and, sorted, the same paths. Every other task waits to be done.
pub evolve-IsOld :
    (s : Site) (spec spec' : IntentSpec) (plan : Design) (changed : List String) (f g : Fleet s)
    → design none spec ≡ ok plan spec'
    → changed_from (component_ids f.design.tasks) f.design.components spec'.components
      ≡ some changed
    → evolve spec f ≡ some g
    → All
        (λ t. (is_done t ≡ false) ⊎ IsCarried f.design.tasks f.design.components spec'.components t)
        g.design.tasks
unfolding evolve adopt
evolve-IsOld s spec spec' plan changed f g d c e =
    let added = added_by f.design.tasks spec'.components in
    let olds = f.design.tasks in
    let same : some (adopt plan spec' changed f) ≡ some g =
      rw (evolve, d, adopt_designed, c) at e in
    let done : adopt plan spec' changed f ≡ g = cc in
    IsOld-mono added changed olds (IsCarried olds f.design.components spec'.components)
      g.design.tasks (kept-IsCarried olds f.design.components spec'.components changed c)
      (subst (λ (h : Fleet s). All (IsOld added changed olds) h.design.tasks) done
        (refresh-IsOld added changed olds s _
          (carry_all-IsOld added changed olds plan.tasks (design-Waits none spec d))))
