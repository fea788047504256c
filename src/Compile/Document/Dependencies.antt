-- ===== src/Compile/Document/Dependencies.antt =====
-- The dependencies of the components that minifleet/compile.py derives from the deliverables.
use Prim.Native.String.{◌++◌ as append}
use minifleet.Prelude.{
  String, ◌≡◌, refl, inl, inr, Bool, true, false, not, some, List, [], ◌∷◌, ◌==◌, map, concat_map,
  filter, find, any, is_empty, contains, subset, subset_of_contains, contains-append, All,
  All-append, All-of_Has, Has, Has-filter, Option-cases, IfSome, if-both, arith, eq_refl,
}
use minifleet.Model.{Component}
use minifleet.Scheduler.State.{update_first}
use minifleet.Compile.Components.{
  Pathlib, Deliverable, deliverable, is_attached, with_path, attach_all, Draft, is_test,
  add_component, default_text, add_modules, owns_stem, add_test, add_tests, components_from,
  components_from_deliverables,
}
use minifleet.Compile.Owned.{components_from-count}

subset-concat_map :
    (ds : List Deliverable) (d : Deliverable)
    → Has d ds
    → subset d.depends (concat_map (λ e. e.depends) ds) ≡ true
subset-concat_map ds d m =
    subset_of_contains d.depends (concat_map (λ e. e.depends) ds) (λ a h. inside a h ds m)
  where
    inside :
        (a : String)
        → contains d.depends a ≡ true
        → (es : List Deliverable) → Has d es
        → contains (concat_map (λ e. e.depends) es) a ≡ true
    inside a h [] n = absurd n
    inside a h (e ∷ es) (inl same) =
        let here : contains e.depends a ≡ true = rw same h in
        ground (arith, contains-append e.depends (concat_map (λ e. e.depends) es) a)
    inside a h (e ∷ es) (inr n) =
        let rest = inside a h es n in
        ground (arith, contains-append e.depends (concat_map (λ e. e.depends) es) a)

module _ (known : List String) where
  -- The dependencies of a component are among those known.
  abbrev DependsIn : Component → Type 0
  DependsIn c = subset c.depends_on known ≡ true

  abbrev AllIn : List Component → Type 0
  AllIn cs = All DependsIn cs

  update_first-AllIn :
      (p : Component → Bool) (path : String) (cs : List Component)
      → AllIn cs
      → AllIn (update_first p (with_path path) cs)
  update_first-AllIn p path [] h = tt
  update_first-AllIn p path (c ∷ cs) (h, hs) =
      if-both AllIn (p c) (h, hs) (h, update_first-AllIn p path cs hs)

  attach_all-IfSome :
      (ds : List Deliverable) (cs : List Component) → AllIn cs → IfSome AllIn (attach_all ds cs)
  unfolding attach_all
  attach_all-IfSome [] cs h = h
  attach_all-IfSome (d ∷ ds) cs h =
      let p = λ (c : Component). c.id == d.owner in
      elim (Option-cases (find p cs)) [
        | inl n ↦ rw (attach_all, n) tt
        | inr (c, n) ↦
            let next =
              attach_all-IfSome ds (update_first p (with_path d.path) cs)
                (update_first-AllIn p d.path cs h) in
            rw (attach_all, n) next
      ]

  module _ (paths : Pathlib) where
    add_component-AllIn :
        (path responsibility : String) (depends : List String) (draft : Draft)
        → subset depends known ≡ true
        → AllIn draft.0
        → AllIn (add_component paths path responsibility depends draft).0
    add_component-AllIn path responsibility depends (cs, used) h hs =
        All-append DependsIn cs _ hs (h, tt)

    add_modules-AllIn :
        (ds : List Deliverable) (draft : Draft)
        → All (λ d. subset d.depends known ≡ true) ds
        → AllIn draft.0
        → AllIn (add_modules paths ds draft).0
    unfolding add_modules
    add_modules-AllIn [] draft h hs = hs
    add_modules-AllIn (d ∷ ds) draft (h, rest) hs =
        let text = default_text d.description (append "deliver " d.path) in
        add_modules-AllIn ds (add_component paths d.path text d.depends draft) rest
          (add_component-AllIn d.path text d.depends draft h hs)

    add_tests-AllIn :
        (ds : List Deliverable) (draft : Draft) → AllIn draft.0 → AllIn (add_tests paths ds draft).0
    unfolding add_tests
    add_tests-AllIn [] draft hs = hs
    add_tests-AllIn (d ∷ ds) (cs, used) hs = add_tests-AllIn ds (add_test paths d (cs, used)) (
        if-both (λ (e : Draft). AllIn e.0) (any (owns_stem paths d.path) cs)
          (update_first-AllIn (owns_stem paths d.path) d.path cs hs)
          (add_component-AllIn d.path (append "deliver " d.path) [] (cs, used) refl hs))

-- The components, if any, depend on what is to be checked only, and there is at least one.
abbrev pub AreDerived : List Component × List String → Type 0
AreDerived (cs, dependencies) =
    All (λ c. subset c.depends_on dependencies ≡ true) cs × (is_empty cs ≡ false)

some-nonempty :
    (paths : Pathlib) (d : Deliverable) (ds : List Deliverable) (cs : List Component)
    → components_from paths (d ∷ ds) ≡ some cs
    → is_empty cs ≡ false
some-nonempty paths d ds [] e =
    let none_owned = components_from-count paths (d ∷ ds) [] e d.path in
    absurd (ground (arith, none_owned, eq_refl d.path))
some-nonempty paths d ds (c ∷ cs) e = refl

pub components_from_deliverables-AreDerived :
    (paths : Pathlib) (items : List String)
    → is_empty items ≡ false
    → IfSome AreDerived (components_from_deliverables paths items)
unfolding components_from_deliverables components_from
components_from_deliverables-AreDerived paths [] h = absurd (ground (arith, h))
components_from_deliverables-AreDerived paths (item ∷ items) h =
    let ds = map deliverable (item ∷ items) in
    let parsed = filter (λ d. not (is_attached d)) ds in
    let modules = filter (λ d. not (is_test paths d)) parsed in
    let tests = filter (is_test paths) parsed in
    let known = concat_map (λ (d : Deliverable). d.depends) parsed in
    let declared =
      All-of_Has (λ (d : Deliverable). subset d.depends known ≡ true) modules
        (λ d m. subset-concat_map parsed d (Has-filter (λ d. not (is_test paths d)) d parsed m)) in
    let start = add_modules paths modules ([], []) in
    let built = add_tests paths tests start in
    let within = attach_all-IfSome known (filter is_attached ds) built.0 (
      add_tests-AllIn known paths tests start
        (add_modules-AllIn known paths modules ([], []) declared tt)) in
    elim (Option-cases (components_from paths ds)) [
      | inl e ↦ rw (components_from_deliverables, e) tt
      | inr (cs, e) ↦
          let kept : IfSome (AllIn known) (some cs) = rw e at within in
          rw (components_from_deliverables, e)
            (kept, some-nonempty paths (deliverable item) (map deliverable items) cs e)
    ]
