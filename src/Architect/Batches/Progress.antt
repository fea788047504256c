-- ===== src/Architect/Batches/Progress.antt =====
-- The loop ends within its fuel, and on an acyclic graph it plans every task.
use mathlib.Core.WellFounded.{Acc}
use minifleet.Prelude.{
  ℕ, zero, suc, ◌≤◌, ◌<◌, String, ◌≡◌, refl, ◌∙◌, ap, true, false, not, ◌||◌, ◌⊎◌, some, List, [],
  ◌∷◌, ◌++◌, map, inl, inr, eq_refl, arith, contains, Dict, keys, lookup, All-at, Has, Has-map,
  Has-map_inv, Has-filter, length, length-filter-lt, All-of_filter-nil, str_le, sort_by,
  subset_fails, lookup-Has, lookup-some, lookup-filter, contains-append,
}
use minifleet.Model.{Task}
use minifleet.Architect.Graph.{successors}
use minifleet.Architect.Cycles.Keeps.{Grounded}
use minifleet.Architect.Batches.{
  ids, Plan, waves, design_error, is_due, due, without, by_id, turn, batches,
}
use minifleet.Architect.Batches.Order.{IsKeyed, IsKeyed-without, keys-without}

-- A wave that is not empty takes an entry off.
length-without-lt :
    (done : List String) (d : Dict Task) (t : Task) (ts : List Task)
    → IsKeyed d
    → due done d ≡ t ∷ ts
    → length (without (ids (due done d)) d) < length d
unfolding due without
length-without-lt done d t ts k h =
    let inside : Has t (map (λ e. e.1) d) =
      Has-filter (is_due done) t (map (λ e. e.1) d) (rw h (inl refl)) in
    let (e, m, same) = Has-map_inv (λ (x : String × Task). x.1) t d inside in
    let key : e.0 ≡ t.id = All-at (λ e. e.0 ≡ e.1.id) e d k m ∙ ap (λ (x : Task). x.id) same in
    length-filter-lt _ e d m (rw (h, key, eq_refl t.id))

turn-some :
    (w : List Task) (left : List String) (p : Plan) → (q : Plan) × (turn w left (some p) ≡ some q)
turn-some [] left p = (design_error left, refl)
turn-some (t ∷ ts) left (waves ws) = (waves (by_id (t ∷ ts) ∷ ws), refl)
turn-some (t ∷ ts) left (design_error l) = (design_error l, refl)

List-cases : (l : List Task) → (l ≡ []) ⊎ ((t : Task) × (ts : List Task) × (l ≡ t ∷ ts))
List-cases [] = inl refl
List-cases (t ∷ ts) = inr (t, ts, refl)

-- With as much fuel as there are entries the loop ends.
pub batches_total :
    (fuel : ℕ) (done : List String) (d : Dict Task)
    → IsKeyed d
    → length d ≤ fuel
    → (p : Plan) × (batches fuel done d ≡ some p)
unfolding batches
batches_total fuel done [] k h = (waves [], refl)
batches_total zero done (e ∷ rest) k h = absurd (omega arith)
batches_total (suc fuel) done (e ∷ rest) k h = elim (List-cases (due done (e ∷ rest))) [
  | inl idle ↦ (design_error (sort_by str_le (keys (e ∷ rest))), rw idle)
  | inr (t, ts, some_due) ↦
      let w = ids (due done (e ∷ rest)) in
      let (p, more) =
        batches_total fuel (done ++ w) (without w (e ∷ rest)) (IsKeyed-without w (e ∷ rest) k)
          (omega (arith, length-without-lt done (e ∷ rest) t ts k some_due)) in
      rw more (turn-some (due done (e ∷ rest)) _ p)
]

-- The loop's state against the graph: dependencies are done or remain, and are edges.
pub record Fits (g : Dict (List String)) (done : List String) (d : Dict Task) : Type 0 where
  pub keyed : IsKeyed d
  pub edges : (n : String) (t : Task) → lookup n d ≡ some t → successors g n ≡ t.depends_on
  pub closed :
      (n : String) (t : Task) (m : String)
      → lookup n d ≡ some t
      → contains t.depends_on m ≡ true
      → (contains done m || contains (keys d) m) ≡ true

lookup-without :
    (w : List String) (d : Dict Task) (n : String) (t : Task)
    → lookup n (without w d) ≡ some t
    → lookup n d ≡ some t
unfolding without
lookup-without w d n t h = ground (arith, lookup-filter (λ k. not (contains w k)) d n)

Fits-without :
    {g : Dict (List String)} {done : List String} {d : Dict Task} (w : List String)
    → Fits g done d
    → Fits g (done ++ w) (without w d)
Fits-without {g} {done} {d} w f = record {
  keyed = IsKeyed-without w d f.keyed;
  edges = λ n t h. f.edges n t (lookup-without w d n t h);
  closed = λ n t m h dep.
      let old = f.closed n t m (lookup-without w d n t h) dep in
      ground (arith, contains-append done w m, keys-without w d m);
}

-- Where nothing is due, each remaining task waits for another one: the chain never ends.
not-stuck :
    {g : Dict (List String)} {done : List String} {d : Dict Task} (n : String)
    → Fits g done d
    → due done d ≡ []
    → Grounded g n
    → contains (keys d) n ≡ true
    → ⊥
unfolding due
not-stuck {g} {done} {d} n f idle (Acc.intro _ smaller) h =
    let (t, found) = lookup-some n d h in
    let late =
      All-at (λ t. is_due done t ≡ false) t (map (λ e. e.1) d)
        (All-of_filter-nil (is_due done) (map (λ e. e.1) d) idle)
        (Has-map (λ (e : String × Task). e.1) (n, t) d (lookup-Has n t d found)) in
    let (m, dep, undone) = subset_fails t.depends_on done late in
    let edge : contains (successors g n) m ≡ true = rw (f.edges n t found) dep in
    let waits : contains (keys d) m ≡ true = ground (arith, f.closed n t m found dep) in
    not-stuck m f idle (smaller m edge) waits

turn_waves :
    (w : List Task) (left : List String) (ws : List (List Task))
    → (w ≡ [] → ⊥)
    → (vs : List (List Task)) × (turn w left (some (waves ws)) ≡ some (waves vs))
turn_waves [] left ws h = absurd (h refl)
turn_waves (t ∷ ts) left ws h = (by_id (t ∷ ts) ∷ ws, refl)

pub batches_plans :
    (fuel : ℕ) {g : Dict (List String)} {done : List String} (d : Dict Task)
    → Fits g done d
    → ((n : String) → Grounded g n)
    → length d ≤ fuel
    → (ws : List (List Task)) × (batches fuel done d ≡ some (waves ws))
unfolding batches
batches_plans fuel [] f acyclic h = ([], refl)
batches_plans zero (e ∷ rest) f acyclic h = absurd (omega arith)
batches_plans (suc fuel) {done = done} (e ∷ rest) f acyclic h =
    let busy : due done (e ∷ rest) ≡ [] → ⊥ =
      λ idle. not-stuck e.0 f idle (acyclic e.0) (rw (eq_refl e.0)) in
    elim (List-cases (due done (e ∷ rest))) [
      | inl idle ↦ absurd (busy idle)
      | inr (t, ts, some_due) ↦
          let w = ids (due done (e ∷ rest)) in
          let (ws, more) =
            batches_plans fuel (without w (e ∷ rest)) (Fits-without w f) acyclic
              (omega (arith, length-without-lt done (e ∷ rest) t ts f.keyed some_due)) in
          rw more (turn_waves (due done (e ∷ rest)) _ ws busy)
    ]
