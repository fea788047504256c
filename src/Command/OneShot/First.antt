-- ===== src/Command/OneShot/First.antt =====
-- The first wave of tasks in `cmd_run` of minifleet/cli.py.
use minifleet.Prelude.{
  ℕ, zero, suc, String, ◌≡◌, refl, sym, ◌∙◌, subst, ◌⊎◌, inl, inr, Bool, true, false, none, some,
  List, [], ◌∷◌, ◌==◌, map, find, is_empty, is_empty→nil, All-mono, subset, All, Bool-cases, arith,
  eq_iff,
}
use minifleet.Model.{TaskState, Task}
use minifleet.Scheduler.State.{is}
use minifleet.Scheduler.Wave.{merged_ids, may_start, promote, start_ready, ready}
use minifleet.Command.OneShot.{nth}

-- No task has been merged, and one that is not pending any more has no dependencies; `starts` says
-- of an id whether its tasks have none.
abbrev pub IsFirstWave : (String → Bool) → Task → Type 0
IsFirstWave starts t =
    (is TaskState.merged t ≡ false)
    × (starts t.id ≡ is_empty t.depends_on)
    × ((starts t.id ≡ true) ⊎ (is TaskState.pending t ≡ true))

pub merged_ids-nil :
    (starts : String → Bool) (ts : List Task) → All (IsFirstWave starts) ts → merged_ids ts ≡ []
merged_ids-nil starts [] h = refl
merged_ids-nil starts (t ∷ ts) (k, h) = rw k.0 (merged_ids-nil starts ts h)

subset-nil : (xs : List String) → subset xs [] ≡ is_empty xs
subset-nil [] = refl
subset-nil (x ∷ xs) = refl

module _ (starts : String → Bool) where
  abbrev pub K : List Task → Type 0
  K ts = All (IsFirstWave starts) ts

  pub promote-K : (ts : List Task) → K ts → K (map (promote []) ts)
  promote-K [] h = tt
  promote-K (t ∷ ts) (k, h) = elim (Bool-cases (may_start [] t)) [
    | inr e ↦ rw e (k, promote-K ts h)
    | inl e ↦
        let free : starts t.id ≡ true = ground (arith, subset-nil t.depends_on, k) in
        rw e ((refl, k.1, inl free), promote-K ts h)
  ]

  -- of the first wave, and not waiting for its dispatch
  abbrev pub IsTaken : Task → Type 0
  IsTaken t = IsFirstWave starts t × (is TaskState.ready t ≡ false)

  pub start_ready-IsTaken :
      (now : ℕ) (ts : List Task) → K ts → All IsTaken (start_ready now none ts)
  unfolding start_ready
  start_ready-IsTaken now [] h = tt
  start_ready-IsTaken now (t ∷ ts) (k, h) = elim (Bool-cases (is TaskState.ready t)) [
    | inr e ↦ rw (start_ready, e) ((k, e), start_ready-IsTaken now ts h)
    | inl e ↦
        let free : starts t.id ≡ true = ground (arith, k) in
        rw (start_ready, e) (((refl, k.1, inl free), refl), start_ready-IsTaken now ts h)
  ]

  pub IsTaken-of_none : (ts : List Task) → is_empty (ready ts) ≡ true → K ts → All IsTaken ts
  IsTaken-of_none [] e h = tt
  IsTaken-of_none (t ∷ ts) e (k, h) = elim (Bool-cases (is TaskState.ready t)) [
    | inl r ↦ let clash : false ≡ true = rw r at e in absurd (ground (arith, clash))
    | inr r ↦ ((k, r), IsTaken-of_none ts (rw r at e) h)
  ]

  pub ready-nil : (ts : List Task) → All IsTaken ts → is_empty (ready ts) ≡ true
  ready-nil [] h = refl
  ready-nil (t ∷ ts) (k, h) = rw k.1 (ready-nil ts h)

  pub found-IsTaken :
      (ts : List Task) (id : String) (u : Task)
      → find (λ t. t.id == id) ts ≡ some u
      → All IsTaken ts
      → IsTaken u × (u.id ≡ id)
  found-IsTaken [] id u e h = absurd (ground (arith, e))
  found-IsTaken (t ∷ ts) id u e (k, h) = elim (Bool-cases (t.id == id)) [
    | inl n ↦
        let same : some t ≡ some u = rw n at e in
        let eq : t ≡ u = cc in
        let named : t.id ≡ id = ground (arith, eq_iff t.id id) in
        let both : IsTaken t × (t.id ≡ id) = (k, named) in
        subst (λ v. IsTaken v × (v.id ≡ id)) eq both
    | inr n ↦ found-IsTaken ts id u (rw n at e) h
  ]

  pub nth-found :
      (i : ℕ) (ts : List Task) (t : Task)
      → nth i ts ≡ some t
      → (u : Task) × (find (λ v. v.id == t.id) ts ≡ some u)
  nth-found i [] t e = absurd (ground (arith, e))
  nth-found zero (u ∷ ts) t e =
      let same : u ≡ t = cc in
      let named : (u.id == t.id) ≡ true = rw same (ground (arith, eq_iff t.id t.id)) in
      (u, rw named refl)
  nth-found (suc i) (u ∷ ts) t e = elim (Bool-cases (u.id == t.id)) [
    | inl n ↦ (u, rw n refl)
    | inr n ↦ let (v, k) = nth-found i ts t e in (v, rw n k)
  ]

  pub nth-IsTaken :
      (i : ℕ) (ts : List Task) (t : Task) → nth i ts ≡ some t → All IsTaken ts → IsTaken t
  nth-IsTaken i [] t e h = absurd (ground (arith, e))
  nth-IsTaken zero (u ∷ ts) t e (k, h) = let same : u ≡ t = cc in rw same at k
  nth-IsTaken (suc i) (u ∷ ts) t e (k, h) = nth-IsTaken i ts t e h

  pub waiting :
      (ts : List Task) → K ts → All (λ t. (t.depends_on ≡ []) ⊎ (is TaskState.pending t ≡ true)) ts
  waiting ts h =
      All-mono ts
        (λ t (m, same, q). elim q [
          | inl free ↦ inl (is_empty→nil t.depends_on (sym same ∙ free))
          | inr p ↦ inr p
        ])
        h
