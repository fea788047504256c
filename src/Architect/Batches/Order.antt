-- ===== src/Architect/Batches/Order.antt =====
-- The waves respect the dependencies, and hold every task.
use minifleet.Prelude.{
  ℕ, zero, suc, String, ◌≡◌, refl, true, not, Option, none, some, List, [], ◌∷◌, ◌++◌, map, eq_iff,
  arith, contains, subset, Dict, keys, All, All-at, All-of_Has, Has-filter, contains-append,
  All-filter, All-mono, All-sort_by, contains-map-sort_by, str_le, subset_mono,
  contains-keys-filter, ◌&&◌,
}
use minifleet.Model.{Task}
use minifleet.Architect.Batches.{
  ids, Plan, waves, design_error, is_due, due, without, by_id, turn, batches,
}

-- Each task of the first wave needs only `done`, of the next only `done` and the first wave.
abbrev pub IsOrdered : List String → List (List Task) → Type 0
IsOrdered done [] = Unit
IsOrdered done (w ∷ ws) =
    All (λ t. subset t.depends_on done ≡ true) w × IsOrdered (done ++ ids w) ws

-- the ids of all waves
abbrev pub planned : List (List Task) → List String
planned [] = []
planned (w ∷ ws) = ids w ++ planned ws

IsOrdered-mono :
    (ws : List (List Task)) (a b : List String)
    → ((n : String) → contains a n ≡ true → contains b n ≡ true)
    → IsOrdered a ws
    → IsOrdered b ws
IsOrdered-mono [] a b f h = tt
IsOrdered-mono (w ∷ ws) a b f h = (
  All-mono w (λ t k. subset_mono t.depends_on a b f k) h.0,
  IsOrdered-mono ws (a ++ ids w) (b ++ ids w)
      (λ n k. ground (arith, contains-append a (ids w) n, contains-append b (ids w) n, f n)) h.1,
)

ids-by_id : (w : List Task) (n : String) → contains (ids (by_id w)) n ≡ contains (ids w) n
ids-by_id w n = contains-map-sort_by (λ s t. str_le s.id t.id) (λ t. t.id) w n

pub turn-eq-waves :
    (w : List Task) (left : List String) (o : Option Plan) {ws : List (List Task)}
    → turn w left o ≡ some (waves ws)
    → (vs : List (List Task)) × (ws ≡ by_id w ∷ vs) × (o ≡ some (waves vs))
turn-eq-waves [] left o h = absurd (ground arith)
turn-eq-waves (t ∷ ts) left none h = absurd (ground arith)
turn-eq-waves (t ∷ ts) left (some (waves vs)) h = (vs, ground arith, refl)
turn-eq-waves (t ∷ ts) left (some (design_error l)) h = absurd (ground arith)

due-All :
    (done : List String) (d : Dict Task) → All (λ t. subset t.depends_on done ≡ true) (due done d)
unfolding due
due-All done d = All-filter (is_due done) (map (λ e. e.1) d)

-- A plan of the loop is in order: what is done before a wave covers the wave's dependencies.
pub batches-IsOrdered :
    (fuel : ℕ) (done : List String) (d : Dict Task) (ws : List (List Task))
    → batches fuel done d ≡ some (waves ws)
    → IsOrdered done ws
unfolding batches
batches-IsOrdered fuel done [] ws h = let e : [] ≡ ws = cc in rw (← e) tt
batches-IsOrdered zero done (e ∷ rest) ws h = absurd (ground arith)
batches-IsOrdered (suc fuel) done (e ∷ rest) ws h =
    let w = due done (e ∷ rest) in
    let (vs, same, more) = turn-eq-waves w _ _ h in
    rw same (
      All-sort_by _ _ w (due-All done (e ∷ rest)),
      IsOrdered-mono vs (done ++ ids w) (done ++ ids (by_id w))
          (λ n k. ground (
            arith,
            contains-append done (ids w) n,
            contains-append done (ids (by_id w)) n,
            ids-by_id w n,
          ))
          (batches-IsOrdered fuel (done ++ ids w) (without (ids w) (e ∷ rest)) vs more),
    )

-- each entry stands under its task's id
abbrev pub IsKeyed : Dict Task → Type 0
IsKeyed d = All (λ e. e.0 ≡ e.1.id) d

pub IsKeyed-without : (w : List String) (d : Dict Task) → IsKeyed d → IsKeyed (without w d)
unfolding without
IsKeyed-without w d k =
    All-of_Has (λ e. e.0 ≡ e.1.id) (without w d)
      (λ e m. All-at (λ e. e.0 ≡ e.1.id) e d k (Has-filter (λ e. not (contains w e.0)) e d m))

contains-ids-due :
    (done : List String) (d : Dict Task) (n : String)
    → IsKeyed d
    → contains (ids (due done d)) n ≡ true
    → contains (keys d) n ≡ true
unfolding due
contains-ids-due done [] n k h = h
contains-ids-due done (e ∷ d) n k h =
    ground (arith, contains-ids-due done d n, eq_iff e.1.id n, eq_iff e.0 n)

pub keys-without :
    (w : List String) (d : Dict Task) (n : String)
    → contains (keys (without w d)) n ≡ (contains (keys d) n && not (contains w n))
unfolding without
keys-without w d n = contains-keys-filter (λ k. not (contains w k)) d n

-- A plan of the loop names just the tasks that remained.
pub batches-covers :
    (fuel : ℕ) (done : List String) (d : Dict Task) (ws : List (List Task)) (n : String)
    → IsKeyed d
    → batches fuel done d ≡ some (waves ws)
    → contains (planned ws) n ≡ contains (keys d) n
unfolding batches
batches-covers fuel done [] ws n k h = let e : [] ≡ ws = cc in rw (← e)
batches-covers zero done (e ∷ rest) ws n k h = absurd (ground arith)
batches-covers (suc fuel) done (e ∷ rest) ws n k h =
    let d : Dict Task = e ∷ rest in
    let w = due done d in
    let (vs, same, more) = turn-eq-waves w _ _ h in
    let rec =
      batches-covers fuel (done ++ ids w) (without (ids w) d) vs n (IsKeyed-without (ids w) d k)
        more in
    rw same (
      ground (
        arith,
        contains-append (ids (by_id w)) (planned vs) n,
        ids-by_id w n,
        rec,
        keys-without (ids w) d n,
        contains-ids-due done d n k,
      ))
