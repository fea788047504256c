-- ===== src/Architect/Review/Parts.antt =====
-- What a silent `check` means, and what the parts of `repair` leave in a plan.
use minifleet.Prelude.{
  String, ◌≡◌, refl, sym, ◌∙◌, ap, true, false, some, List, [], ◌∷◌, ◌++◌, map, ◌==◌, inl, inr,
  eq_iff, eq_refl, arith, if◌then◌else◌, is_empty, contains, subset, Dict, insert, lookup,
  lookup-insert, filter, All, Has, Has-map, Has-append_left, Has-append_right, Bool-cases,
  contains→Has, Option-cases, sort_by, str_le,
}
use minifleet.Model.{AcceptanceCriterion, IntentSpec, Task, Design}
use minifleet.Architect.Graph.{find_cycles}
use minifleet.Architect.Batches.{ids}
use minifleet.Architect.Batches.Waves.{IsClosed}
use minifleet.Architect.Repairs.{
  probed, drop_unknown, known_only, scoped, drop_edges, find_task, edges_into, break_cycle,
}
use minifleet.Architect.Review.{
  Problem, clash, shared, claims, gate_ids_of, check, cycle_problems, cover_problems, unknown_gates,
  contract_problems, ok, reviewed,
}

pub append-nil {ℓ} : {A : Type ℓ} (xs ys : List A) → xs ++ ys ≡ [] → (xs ≡ []) × (ys ≡ [])
append-nil [] ys h = (refl, h)
append-nil (x ∷ xs) ys h = cc

shared-nil :
    (owners : Dict String) (p t : String) (rest : List (String × String))
    → shared owners ((p, t) ∷ rest) ≡ []
    → (clash p t (lookup p owners) ≡ []) × (shared (insert p t owners) rest ≡ [])
shared-nil owners p t rest h =
    append-nil (clash p t (lookup p owners)) (shared (insert p t owners) rest) h

-- What `check` found is the six parts, in order.
pub record Approved (plan : Design) (criteria : List AcceptanceCriterion) : Type 0 where
  pub acyclic : find_cycles plan.tasks ≡ []
  pub disjoint : shared [] (claims plan.tasks) ≡ []
  pub covered : All (λ c. subset c.gates (gate_ids_of plan) ≡ true) criteria

nil_parts {ℓ} :
    {A : Type ℓ} (a b c d e : List A)
    → a ++ (b ++ (c ++ (d ++ e))) ≡ []
    → (a ≡ []) × (b ≡ []) × (d ≡ [])
nil_parts [] [] [] [] e h = (refl, refl, refl)
nil_parts [] [] [] (x ∷ d) e h = cc
nil_parts [] [] (x ∷ c) d e h = cc
nil_parts [] (x ∷ b) c d e h = cc
nil_parts (x ∷ a) b c d e h = cc

cover_problems-nil :
    (gates : List String) (criteria : List AcceptanceCriterion)
    → cover_problems gates criteria ≡ []
    → All (λ c. subset c.gates gates ≡ true) criteria
cover_problems-nil gates [] h = tt
cover_problems-nil gates (c ∷ cs) h = ground (arith, cover_problems-nil gates cs)

cycle_problems-nil : (cycles : List (List String)) → cycle_problems cycles ≡ [] → cycles ≡ []
cycle_problems-nil [] h = refl
cycle_problems-nil (c ∷ cs) h = cc

pub check-Approved :
    (plan : Design) (criteria : List AcceptanceCriterion)
    → check plan criteria ≡ []
    → Approved plan criteria
unfolding check
check-Approved plan criteria h =
    let gates = gate_ids_of plan in
    let (acyclic, disjoint, covered) =
      nil_parts (cycle_problems (find_cycles plan.tasks)) (shared [] (claims plan.tasks))
        (unknown_gates gates plan.tasks) (cover_problems gates criteria)
        (contract_problems (map (λ c. c.id) plan.contracts) plan.tasks
          ++ (if is_empty plan.gates then Problem.no_gates ∷ [] else []))
        h in
    record {
      acyclic = cycle_problems-nil (find_cycles plan.tasks) acyclic;
      disjoint = disjoint;
      covered = cover_problems-nil gates criteria covered;
    }

-- a name that `owners` has already given away is claimed by its owner only
clash-agree : (path id owner : String) → clash path id (some owner) ≡ [] → owner ≡ id
clash-agree path id owner h = ground (arith, eq_iff owner id)

shared-agree :
    (owners : Dict String) (l : List (String × String)) (path id owner : String)
    → shared owners l ≡ []
    → lookup path owners ≡ some owner
    → Has (path, id) l
    → owner ≡ id
shared-agree owners [] path id owner h k m = absurd m
shared-agree owners ((p, t) ∷ rest) path id owner h k (inl e) =
    let key : lookup p owners ≡ some owner = rw (ap (λ (x : String × String). x.0) e) k in
    let none_clash : clash p t (some owner) ≡ [] =
      rw key at (let c = (shared-nil owners p t rest h).0 in c) in
    clash-agree p t owner none_clash ∙ ap (λ (x : String × String). x.1) e
shared-agree owners ((p, t) ∷ rest) path id owner h k (inr m) = elim (Bool-cases (p == path)) [
  | inl e ↦
      let key : lookup p owners ≡ some owner = rw ((eq_iff p path).0 e) k in
      let none_clash : clash p t (some owner) ≡ [] =
        rw key at (let c = (shared-nil owners p t rest h).0 in c) in
      clash-agree p t owner none_clash
      ∙ shared-agree (insert p t owners) rest path id t ((shared-nil owners p t rest h).1)
          (rw (lookup-insert, e)) m
  | inr e ↦
      shared-agree (insert p t owners) rest path id owner ((shared-nil owners p t rest h).1)
        (rw (lookup-insert, e) k) m
]

-- the first claim of a path against a later one
first-agrees :
    (owners : Dict String) (p t : String) (rest : List (String × String)) (path id : String)
    → shared owners ((p, t) ∷ rest) ≡ []
    → p ≡ path
    → Has (path, id) rest
    → t ≡ id
first-agrees owners p t rest path id h e m =
    shared-agree (insert p t owners) rest path id t ((shared-nil owners p t rest h).1)
      (rw (e, lookup-insert, eq_refl path)) m

-- If the loop reports no clash, a path has one owner.
pub shared-single :
    (owners : Dict String) (l : List (String × String)) (path a b : String)
    → shared owners l ≡ []
    → Has (path, a) l
    → Has (path, b) l
    → a ≡ b
shared-single owners [] path a b h m n = absurd m
shared-single owners ((p, t) ∷ rest) path a b h (inl e) (inl f) =
    sym (ap (λ (x : String × String). x.1) e) ∙ ap (λ (x : String × String). x.1) f
shared-single owners ((p, t) ∷ rest) path a b h (inl e) (inr n) =
    sym (ap (λ (x : String × String). x.1) e)
    ∙ first-agrees owners p t rest path b h (ap (λ (x : String × String). x.0) e) n
shared-single owners ((p, t) ∷ rest) path a b h (inr m) (inl f) =
    sym (first-agrees owners p t rest path a h (ap (λ (x : String × String). x.0) f) m)
    ∙ ap (λ (x : String × String). x.1) f
shared-single owners ((p, t) ∷ rest) path a b h (inr m) (inr n) =
    shared-single (insert p t owners) rest path a b ((shared-nil owners p t rest h).1) m n

pub claims-Has :
    (t : Task) (ts : List Task) (path : String)
    → Has t ts
    → contains t.owns path ≡ true
    → Has (path, t.id) (claims ts)
claims-Has t [] path m h = absurd m
claims-Has t (u ∷ ts) path (inl e) h =
    Has-append_left (path, t.id) (map (λ p. (p, u.id)) u.owns) (claims ts)
      (let owned = rw (← e) at (contains→Has t.owns path h) in
        rw (← e) (Has-map (λ p. (p, u.id)) path u.owns owned))
claims-Has t (u ∷ ts) path (inr m) h =
    Has-append_right (path, t.id) (map (λ p. (p, u.id)) u.owns) (claims ts)
      (claims-Has t ts path m h)

pub reviewed-eq-ok :
    (p : Design) (s : IntentSpec) (l : List Problem) {plan : Design} {spec : IntentSpec}
    → reviewed p s l ≡ ok plan spec
    → (l ≡ []) × (p ≡ plan) × (s ≡ spec)
reviewed-eq-ok p s [] h = (refl, cc, cc)
reviewed-eq-ok p s (q ∷ l) h = absurd (ground arith)

ids-known_only : (known : List String) (ts : List Task) → ids (map (known_only known) ts) ≡ ids ts
ids-known_only known [] = refl
ids-known_only known (t ∷ ts) = ap (◌∷◌ t.id) (ids-known_only known ts)

subset-known : (known xs : List String) → subset (filter (contains known) xs) known ≡ true
subset-known known [] = refl
subset-known known (x ∷ xs) = ground (arith, subset-known known xs)

All-known_only :
    (known : List String) (ts : List Task)
    → All (λ t. subset t.depends_on known ≡ true) (map (known_only known) ts)
All-known_only known [] = tt
All-known_only known (t ∷ ts) = (subset-known known t.depends_on, All-known_only known ts)

pub drop_unknown-IsClosed : (plan : Design) → IsClosed (drop_unknown plan).tasks
unfolding drop_unknown
drop_unknown-IsClosed plan =
    rw (ids-known_only (ids plan.tasks) plan.tasks) (All-known_only (ids plan.tasks) plan.tasks)

pub All-probed :
    (criteria : List AcceptanceCriterion)
    → All (λ c. is_empty c.gates ≡ false) (map probed criteria)
All-probed [] = tt
All-probed (c ∷ cs) = (ground arith, All-probed cs)

-- a task has somewhere to write
abbrev pub Writes : Task → Type 0
Writes t = is_empty t.owns ≡ false

pub All-scoped : (ts : List Task) → All Writes (map scoped ts)
All-scoped [] = tt
All-scoped (t ∷ ts) = (ground arith, All-scoped ts)

drop_edges-Writes :
    (id : String) (dropped : List String) (ts : List Task)
    → All Writes ts
    → All Writes (drop_edges id dropped ts)
drop_edges-Writes id dropped [] h = tt
drop_edges-Writes id dropped (t ∷ ts) h = ground (arith, drop_edges-Writes id dropped ts h.1)

pub break_cycle-Writes :
    (plan : Design) (cycle : List String)
    → All Writes plan.tasks
    → All Writes (break_cycle plan cycle).tasks
unfolding break_cycle
break_cycle-Writes plan cycle h = go (sort_by str_le cycle) refl
  where
    go : (l : List String) → sort_by str_le cycle ≡ l → All Writes (break_cycle plan cycle).tasks
    go [] e = rw (e, break_cycle) h
    go (v ∷ vs) e = elim (Option-cases (find_task v plan.tasks)) [
      | inl none_found ↦ rw (e, break_cycle, none_found) h
      | inr (t, found) ↦
          rw (e, break_cycle, found) (drop_edges-Writes v (edges_into cycle t) plan.tasks h)
    ]
