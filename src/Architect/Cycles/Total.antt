-- ===== src/Architect/Cycles/Total.antt =====
-- The search of `find_cycles` never runs out of fuel: each visit uses up a white name.
use minifleet.Prelude.{
  ℕ, zero, suc, ◌≤◌, ◌<◌, String, ◌≡◌, refl, Bool, true, false, Option, some, List, [], ◌∷◌, inl,
  inr, eq_iff, eq_refl, arith, contains, Dict, keys, All, All-of_Has, All-mono, Has→contains,
  contains-append, length, filter, length-filter-le,
}
use minifleet.Architect.Graph.{
  Colour, Dfs, Visit, successors, enter, leave, close, follow, scan, visit, roots, start, names,
  search_graph,
}
use minifleet.Architect.Cycles.Keeps.{Is, Colour-cases}

abbrev is_white : Colour → Bool
is_white Colour.white = true
is_white _ = false

-- how many of `all` are white
abbrev whites : List String → Dfs → ℕ
whites all s = length (filter (λ n. is_white (s.colour n)) all)

whites-leave-le : (all : List String) (n : String) (s : Dfs) → whites all (leave n s) ≤ whites all s
whites-leave-le [] n s = omega arith
whites-leave-le (x ∷ all) n s = ground (arith, whites-leave-le all n s)

whites-enter-le : (all : List String) (n : String) (s : Dfs) → whites all (enter n s) ≤ whites all s
whites-enter-le [] n s = omega arith
whites-enter-le (x ∷ all) n s = ground (arith, whites-enter-le all n s)

whites-enter-lt :
    (all : List String) (n : String) (s : Dfs)
    → contains all n ≡ true
    → Is Colour.white s n
    → whites all (enter n s) < whites all s
whites-enter-lt [] n s h w = absurd (ground arith)
whites-enter-lt (x ∷ all) n s h w =
    ground (arith, eq_iff x n, eq_iff n x, whites-enter-lt all n s, whites-enter-le all n s)

module _ (all : List String) where
  abbrev Ends : Option Dfs → Dfs → Type 0
  Ends o s = (t : Dfs) × (o ≡ some t) × (whites all t ≤ whites all s)

  -- `v` ends from every state with at most `bound` white names.
  abbrev IsTotal : ℕ → Visit → Type 0
  IsTotal bound v =
      (n : String) (s : Dfs)
      → contains all n ≡ true
      → Is Colour.white s n
      → whites all s ≤ bound
      → Ends (v n s) s

  module _ {bound : ℕ} {v : Visit} (total : IsTotal bound v) where
    follow_total :
        (n : String) (s : Dfs)
        → contains all n ≡ true
        → whites all s ≤ bound
        → Ends (follow v n s) s
    unfolding follow
    follow_total n s h b = elim (Colour-cases (s.colour n)) [
      | inl w ↦ rw (w, follow) (total n s h w b)
      | inr (inl w) ↦ rw (w, follow) (close n s, refl, omega arith)
      | inr (inr w) ↦ rw (w, follow) (s, refl, omega arith)
    ]

    scan_total :
        (ns : List String) (s : Dfs)
        → All (λ n. contains all n ≡ true) ns
        → whites all s ≤ bound
        → Ends (scan v ns s) s
    unfolding scan
    scan_total [] s h b = (s, refl, omega arith)
    scan_total (n ∷ ns) s h b =
        let (t, first, less) = follow_total n s h.0 b in
        let (u, rest, less') = scan_total ns t h.1 (omega arith) in
        (u, rw (first, scan) rest, omega arith)

    roots_total :
        (ns : List String) (s : Dfs)
        → All (λ n. contains all n ≡ true) ns
        → whites all s ≤ bound
        → Ends (roots v ns s) s
    unfolding roots
    roots_total [] s h b = (s, refl, omega arith)
    roots_total (n ∷ ns) s h b = elim (Colour-cases (s.colour n)) [
      | inl w ↦
          let (t, first, less) = total n s h.0 w b in
          let (u, rest, less') = roots_total ns t h.1 (omega arith) in
          (u, rw (w, roots, first) rest, omega arith)
      | inr (inl w) ↦ rw (w, roots) (roots_total ns s h.1 b)
      | inr (inr w) ↦ rw (w, roots) (roots_total ns s h.1 b)
    ]

  visit-IsTotal :
      (fuel : ℕ) (g : Dict (List String))
      → ((n : String) → All (λ m. contains all m ≡ true) (successors g n))
      → IsTotal fuel (visit fuel g)
  unfolding visit
  visit-IsTotal zero g closed n s h w b = absurd (omega (arith, whites-enter-lt all n s h w))
  visit-IsTotal (suc fuel) g closed n s h w b =
      let less = whites-enter-lt all n s h w in
      let (u, inside, less') =
        scan_total (visit-IsTotal fuel g closed) (successors g n) (enter n s) (closed n)
          (omega arith) in
      (leave n u, rw (visit, inside), omega (arith, whites-leave-le all n u))

keys-names : (g : Dict (List String)) → All (λ n. contains (names g) n ≡ true) (keys g)
unfolding names
keys-names [] = tt
keys-names ((k, ns) ∷ g) = (
  rw (eq_refl k),
  All-mono (keys g) (λ n h. ground (arith, contains-append ns (names g) n)) (keys-names g),
)

contains-successors :
    (g : Dict (List String)) (n m : String)
    → contains (successors g n) m ≡ true
    → contains (names g) m ≡ true
unfolding names
contains-successors [] n m h = cc
contains-successors ((k, ns) ∷ g) n m h =
    ground (arith, contains-append ns (names g) m, contains-successors g n m)

successors-names :
    (g : Dict (List String)) (n : String) → All (λ m. contains (names g) m ≡ true) (successors g n)
successors-names g n =
    All-of_Has (λ m. contains (names g) m ≡ true) (successors g n)
      (λ m has. contains-successors g n m (Has→contains (successors g n) m has))

-- The depth-first search of any graph ends within its fuel.
pub search_graph_total : (g : Dict (List String)) → (s : Dfs) × (search_graph g ≡ some s)
unfolding search_graph
search_graph_total g =
    let (t, e, less) =
      roots_total (names g)
        (visit-IsTotal (names g) (suc (length (names g))) g (successors-names g)) (keys g) start
        (keys-names g)
        (omega (arith, length-filter-le (λ n. is_white (start.colour n)) (names g))) in
    (t, e)
