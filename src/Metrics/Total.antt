-- ===== src/Metrics/Total.antt =====
-- The critical path is found, whatever the dependencies.
use minifleet.Prelude.{
  ℕ, zero, suc, ◌≤◌, ◌<◌, String, true, false, some, List, [], ◌∷◌, ◌≡◌, refl, ap, arith, inl, inr,
  length, contains, minus, Dict, lookup, lookup-none, keys, Bool-cases, Option-cases, eq_iff,
  eq_refl, ◌==◌,
}
use minifleet.Model.{Task}
use minifleet.Metrics.{
  Memo, Visit, added, duration, parents, longest, critical_path, index_tasks, larger,
}

-- a visit that ends at every memo
abbrev IsTotal : (String → Visit) → Type 0
IsTotal visit = (id : String) (memo : Memo) → (x : ℕ × Memo) × (visit id memo ≡ some x)

parents-total :
    (visit : String → Visit)
    → IsTotal visit
    → (known deps : List String) (memo : Memo)
    → (x : ℕ × Memo) × (parents visit known deps memo ≡ some x)
parents-total visit h known [] memo = ((0, memo), refl)
parents-total visit h known (dep ∷ deps) memo = elim (Bool-cases (contains known dep)) [
  | inl e ↦
      let ((v, m), seen) = h dep memo in
      let ((w, m2), rest) = parents-total visit h known deps m in
      ((larger v w, m2), rw (e, seen, rest) refl)
  | inr e ↦ rw e (parents-total visit h known deps memo)
]

-- Seeing a name leaves fewer unseen.
minus-le :
    (xs seen : List String) (a : String) → length (minus xs (a ∷ seen)) ≤ length (minus xs seen)
minus-le [] seen a = omega arith
minus-le (x ∷ xs) seen a = ground (arith, minus-le xs seen a)

minus-lt :
    (xs seen : List String) (a : String)
    → contains xs a ≡ true
    → contains seen a ≡ false
    → length (minus xs (a ∷ seen)) < length (minus xs seen)
minus-lt [] seen a h k = cc
minus-lt (x ∷ xs) seen a h k = elim (Bool-cases (x == a)) [
  | inl e ↦
      let same : x ≡ a = (eq_iff x a).0 e in
      rw (same, eq_refl a, k) (omega (arith, minus-le xs seen a))
  | inr e ↦ ground (arith, minus-lt xs seen a, eq_iff a x, eq_iff x a)
]

longest-IsTotal :
    (by_id : Dict Task) (fuel : ℕ) (seen : List String)
    → length (minus (keys by_id) seen) < fuel
    → IsTotal (longest fuel by_id seen)
unfolding longest
longest-IsTotal by_id zero seen l id memo = absurd (omega (arith, l))
longest-IsTotal by_id (suc fuel) seen l id memo = elim (Option-cases (lookup id memo)) [
  | inr (v, e) ↦ ((v, memo), rw e refl)
  | inl e ↦ elim (Bool-cases (contains seen id)) [
    | inl d ↦ ((0, memo), rw (e, d) refl)
    | inr d ↦ elim (Option-cases (lookup id by_id)) [
      | inl f ↦ ((0, memo), rw (e, d, f) refl)
      | inr (t, f) ↦
          let there : contains (keys by_id) id ≡ true =
            elim (Bool-cases (contains (keys by_id) id)) [
              | inl y ↦ y
              | inr n ↦ absurd (ground (arith, lookup-none id by_id n))
            ] in
          let less = minus-lt (keys by_id) seen id there d in
          let (x, found) =
            parents-total (longest fuel by_id (id ∷ seen))
              (longest-IsTotal by_id fuel (id ∷ seen) (omega (arith, less, l))) (keys by_id)
              t.depends_on memo in
          (added id (duration t) x, rw (e, d, f, found) refl)
    ]
  ]
]

minus-none : (xs : List String) → length (minus xs []) ≡ length xs
minus-none [] = refl
minus-none (x ∷ xs) = ap suc (minus-none xs)

-- The critical path is computed for any tasks, cycles among their dependencies included, when the
-- fuel is more than the number of the tasks' ids.
pub critical_path_total :
    (tasks : List Task) (fuel : ℕ)
    → length (keys (index_tasks tasks [])) < fuel
    → (x : ℕ × Memo) × (critical_path fuel tasks ≡ some x)
unfolding critical_path
critical_path_total tasks fuel l =
    let by_id = index_tasks tasks [] in
    parents-total (longest fuel by_id [])
      (longest-IsTotal by_id fuel [] (omega (arith, minus-none (keys by_id), l))) (keys by_id)
      (keys by_id) []
