-- ===== src/Architect/Batches/Waves.antt =====
-- What `topological_batches` promises of a list of tasks.
use minifleet.Prelude.{
  String, ◌≡◌, refl, sym, ◌∙◌, ap, true, ◌||◌, ◌⊎◌, some, List, [], ◌∷◌, map, inl, inr, eq_iff,
  arith, contains, subset, Dict, insert, keys, lookup, All, All-at, Has, length, subset-contains,
  map-insert, contains-keys-insert, lookup-insert, ◌==◌, Bool-cases,
}
use minifleet.Model.{Task}
use minifleet.Architect.Graph.{graph, add_tasks, successors, find_cycles}
use minifleet.Architect.Cycles.Acyclic.{find_cycles-nil_iff}
use minifleet.Architect.Batches.{ids, Plan, waves, add_by_id, topological_batches}
use minifleet.Architect.Batches.Order.{
  IsKeyed, IsOrdered, planned, batches-IsOrdered, batches-covers,
}
use minifleet.Architect.Batches.Progress.{Fits, batches_total, batches_plans}

IsKeyed-insert : (t : Task) (d : Dict Task) → IsKeyed d → IsKeyed (insert t.id t d)
IsKeyed-insert t [] k = (refl, tt)
IsKeyed-insert t ((j, s) ∷ d) k = elim (Bool-cases (j == t.id)) [
  | inl e ↦ rw e ((eq_iff j t.id).0 e, k.1)
  | inr e ↦ rw e (k.0, IsKeyed-insert t d k.1)
]

IsKeyed-add_by_id : (d : Dict Task) (ts : List Task) → IsKeyed d → IsKeyed (add_by_id d ts)
unfolding add_by_id
IsKeyed-add_by_id d [] k = k
IsKeyed-add_by_id d (t ∷ ts) k = IsKeyed-add_by_id (insert t.id t d) ts (IsKeyed-insert t d k)

abbrev deps : Dict Task → Dict (List String)
deps d = map (λ e. (e.0, e.1.depends_on)) d

add_tasks-deps : (d : Dict Task) (ts : List Task) → add_tasks (deps d) ts ≡ deps (add_by_id d ts)
unfolding add_by_id add_tasks
add_tasks-deps d [] = refl
add_tasks-deps d (t ∷ ts) =
    ap (λ g. add_tasks g ts) (sym (map-insert (λ (u : Task). u.depends_on) t.id t d))
    ∙ add_tasks-deps (insert t.id t d) ts

lookup-deps :
    (d : Dict Task) (n : String) (t : Task)
    → lookup n d ≡ some t
    → lookup n (deps d) ≡ some t.depends_on
lookup-deps [] n t h = cc
lookup-deps ((j, s) ∷ d) n t h = elim (Bool-cases (j == n)) [
  | inl e ↦
      let same : some s ≡ some t = rw e at h in
      let it : s ≡ t = cc in rw e (ap (λ (u : Task). some u.depends_on) it)
  | inr e ↦ rw e (lookup-deps d n t (rw e at h))
]

successors_of_lookup :
    (g : Dict (List String)) (n : String) {l : List String}
    → lookup n g ≡ some l
    → successors g n ≡ l
successors_of_lookup g n h = ground arith

keys-add_by_id :
    (d : Dict Task) (ts : List Task) (n : String)
    → contains (keys (add_by_id d ts)) n ≡ (contains (keys d) n || contains (ids ts) n)
unfolding add_by_id
keys-add_by_id d [] n = ground arith
keys-add_by_id d (t ∷ ts) n =
    ground (arith, keys-add_by_id (insert t.id t d) ts n, contains-keys-insert t.id n t d)

lookup-add_by_id :
    (d : Dict Task) (ts : List Task) (n : String) (t : Task)
    → lookup n (add_by_id d ts) ≡ some t
    → (lookup n d ≡ some t) ⊎ Has t ts
unfolding add_by_id
lookup-add_by_id d [] n t h = inl h
lookup-add_by_id d (s ∷ ts) n t h = elim (lookup-add_by_id (insert s.id s d) ts n t h) [
  | inr m ↦ inr (inr m)
  | inl k ↦ elim (Bool-cases (s.id == n)) [
    | inl e ↦ let same : some s ≡ some t = rw (lookup-insert, e) at k in inr (inl (cc))
    | inr e ↦ inl (rw (lookup-insert, e) at k)
  ]
]

-- Every dependency of the tasks is one of the tasks.
abbrev pub IsClosed : List Task → Type 0
IsClosed tasks = All (λ t. subset t.depends_on (ids tasks) ≡ true) tasks

Fits-tasks : (tasks : List Task) → IsClosed tasks → Fits (graph tasks) [] (add_by_id [] tasks)
unfolding graph
Fits-tasks tasks closed = record {
  keyed = IsKeyed-add_by_id [] tasks tt;
  edges = λ n t h.
      ap (λ g. successors g n) (add_tasks-deps [] tasks)
      ∙ successors_of_lookup (deps (add_by_id [] tasks)) n (lookup-deps (add_by_id [] tasks) n t h);
  closed = λ n t m h dep. elim (lookup-add_by_id [] tasks n t h) [
    | inl absent ↦ cc
    | inr inside ↦
        let known =
          subset-contains t.depends_on (ids tasks) m
            (All-at (λ t. subset t.depends_on (ids tasks) ≡ true) t tasks closed inside) dep in
        rw keys-add_by_id known
  ];
}

module _ (tasks : List Task) where
  -- The loop over the waves ends, with a plan or with a design error.
  pub topological_batches_total : (p : Plan) × (topological_batches tasks ≡ some p)
  unfolding topological_batches
  topological_batches_total =
      let d = add_by_id [] tasks in
      batches_total (length d) [] d (IsKeyed-add_by_id [] tasks tt) (omega arith)

  -- A plan is in order, each task behind all of its dependencies and in a later wave than they,
  -- and it names exactly the given tasks.
  pub topological_batches_plan :
      (ws : List (List Task))
      → topological_batches tasks ≡ some (waves ws)
      → IsOrdered [] ws × ((n : String) → contains (planned ws) n ≡ contains (ids tasks) n)
  unfolding topological_batches
  topological_batches_plan ws h =
      let d = add_by_id [] tasks in
      (
        batches-IsOrdered (length d) [] d ws h,
        λ n.
            batches-covers (length d) [] d ws n (IsKeyed-add_by_id [] tasks tt) h
            ∙ keys-add_by_id [] tasks n,
      )

  -- If every dependency is one of the tasks and `find_cycles` reports nothing, there is a plan.
  pub topological_batches_acyclic :
      IsClosed tasks
      → find_cycles tasks ≡ []
      → (ws : List (List Task)) × (topological_batches tasks ≡ some (waves ws))
  unfolding topological_batches
  topological_batches_acyclic closed h =
      let d = add_by_id [] tasks in
      batches_plans (length d) d (Fits-tasks tasks closed) ((find_cycles-nil_iff tasks).0 h)
        (omega arith)
