-- ===== src/Architect/Cycles/Acyclic.antt =====
-- `find_cycles` decides whether the dependency graph is acyclic.
use minifleet.Prelude.{
  String, ◌≡◌, refl, ◌↔◌, none, some, List, [], ◌∷◌, contains, Dict, keys, lookup, All, All-at,
  contains→Has, Bool-cases, inl, inr, lookup-none, suc, length, arith,
}
use mathlib.Core.WellFounded.{Acc}
use minifleet.Model.{Task}
use minifleet.Architect.Graph.{Colour, Dfs, start, names, search_graph, graph, find_cycles}
use minifleet.Architect.Cycles.Keeps.{Depends, Is, Grounded, roots-After, visit-Keeps}
use minifleet.Architect.Cycles.Sound.{
  IsCycle, roots-IsSound, visit-KeepsSound, Grounded-not-IsCycle,
}
use minifleet.Architect.Cycles.Total.{search_graph_total}

no_successor : (g : Dict (List String)) (n m : String) → lookup n g ≡ none → Depends g m n → ⊥
no_successor g n m e dep = ground arith

find_cycles-eq-cycles :
    (ts : List Task) (s : Dfs) → search_graph (graph ts) ≡ some s → find_cycles ts ≡ s.cycles
unfolding find_cycles
find_cycles-eq-cycles ts s e = rw (find_cycles, e)

module _ (g : Dict (List String)) (s : Dfs) (e : search_graph g ≡ some s) where
  search_graph-Grounded : s.cycles ≡ [] → (n : String) → Grounded g n
  unfolding search_graph
  search_graph-Grounded h n =
      let after =
        roots-After (visit-Keeps (suc (length (names g))) g) (keys g) start s (λ m k. cc) e in
      elim (Bool-cases (contains (keys g) n)) [
        | inl known ↦
            after.0.grounded (λ m _ b. cc) n h
              (All-at (Is Colour.black s) n (keys g) after.1 (contains→Has (keys g) n known))
        | inr unknown ↦
            Acc.intro n λ m dep. absurd (no_successor g n m (lookup-none n g unknown) dep)
      ]

  search_graph-real : All (IsCycle g) s.cycles
  unfolding search_graph
  search_graph-real =
      (roots-IsSound (visit-KeepsSound (suc (length (names g))) g) (keys g) start s refl
        (record { on_stack = λ m k. cc; real = tt }) e).real

  no-cycle : ((n : String) → Grounded g n) → (l : List (List String)) → All (IsCycle g) l → l ≡ []
  no-cycle h [] real = refl
  no-cycle h ([] ∷ l) real = absurd real.0
  no-cycle h ((n ∷ xs) ∷ l) real = absurd (Grounded-not-IsCycle g n xs (h n) real.0)

module _ (ts : List Task) where
  -- Each list that the search reports is a cycle of the dependency graph: each name depends on
  -- the next one, and the last on the first.
  pub find_cycles-IsCycle : All (IsCycle (graph ts)) (find_cycles ts)
  find_cycles-IsCycle =
      let (s, e) = search_graph_total (graph ts) in
      rw (find_cycles-eq-cycles ts s e) (search_graph-real (graph ts) s e)

  -- The search reports no cycle exactly when no chain of dependencies goes on for ever.
  pub find_cycles-nil_iff : (find_cycles ts ≡ []) ↔ ((n : String) → Grounded (graph ts) n)
  find_cycles-nil_iff =
      let (s, e) = search_graph_total (graph ts) in
      rw (find_cycles-eq-cycles ts s e) (
        search_graph-Grounded (graph ts) s e,
        λ h. no-cycle (graph ts) s e h s.cycles (search_graph-real (graph ts) s e),
      )
