-- ===== src/Worktree/Attempts.antt =====
-- The branch of a new attempt.
use minifleet.Prelude.{
  ℕ, zero, suc, ◌≤◌, ◌<◌, String, Bool, true, false, Option, some, List, [], ◌∷◌, ◌≡◌, refl, ◌∙◌,
  arith, ◌⊎◌, inl, inr, Bool-cases, contains, minus, contains-minus, contains→Has, length,
  length-filter-lt, ◌==◌, eq_iff, eq_refl, trim,
}
use minifleet.Model.{pos, eq_ℤ}
use minifleet.Worktree.{
  Git, Step, did, raised, attempt_name, next_attempt, unless_live, unless_first, attempt_branch,
}

-- whether a git command succeeds, and what it prints
abbrev succeeds : (g : Git) → String → g.World → List String → Bool
succeeds g path w args = eq_ℤ (g.command args path w).0.0 (pos 0)

-- `branch_exists` of a name
abbrev pub resolves : (g : Git) → String → g.World → String → Bool
resolves g path w name = succeeds g path w ("rev-parse" ∷ "--verify" ∷ "-q" ∷ name ∷ [])

abbrev pub has_revision : (g : Git) → String → g.World → String → Bool
has_revision g path w rev = succeeds g path w ("rev-parse" ∷ rev ∷ [])

abbrev pub tip : (g : Git) → String → g.World → String → String
tip g path w rev = trim (g.command ("rev-parse" ∷ rev ∷ []) path w).0.1

abbrev pub complaint : (g : Git) → String → g.World → String → String
complaint g path w rev = trim (g.command ("rev-parse" ∷ rev ∷ []) path w).0.2

abbrev pub is_merged : (g : Git) → String → g.World → String → String → Bool
is_merged g path w a b = succeeds g path w ("merge-base" ∷ "--is-ancestor" ∷ a ∷ b ∷ [])

-- What the choice needs of git: `rev-parse` and `merge-base` only read, and of the names of later
-- attempts of the component those that resolve are listed. Numbers have different decimal texts.
pub record HasAttempts (g : Git) (path : String) (w : g.World) (component : String)
    (taken : List String) : Type 0 where
  pub reads_revision : (rev : String) → (g.command ("rev-parse" ∷ rev ∷ []) path w).1 ≡ w
  pub reads_base :
      (a b : String) → (g.command ("merge-base" ∷ "--is-ancestor" ∷ a ∷ b ∷ []) path w).1 ≡ w
  pub reads_branch :
      (b : String) → (g.command ("rev-parse" ∷ "--verify" ∷ "-q" ∷ b ∷ []) path w).1 ≡ w
  pub finds :
      (n : ℕ)
      → resolves g path w (attempt_name g path component n)
        ≡ contains taken (attempt_name g path component n)
  pub injective :
      (m n : ℕ) → attempt_name g path component m ≡ attempt_name g path component n → m ≡ n

-- The first number from n on whose attempt has no branch is k.
pub data IsFirstFree (g : Git) (path : String) (w : g.World) (component : String)
    : ℕ → ℕ → Type 0 where
  stands_free :
      (n : ℕ)
      → resolves g path w (attempt_name g path component n) ≡ false
      → IsFirstFree g path w component n n
  is_taken :
      (n k : ℕ)
      → resolves g path w (attempt_name g path component n) ≡ true
      → IsFirstFree g path w component (suc n) k
      → IsFirstFree g path w component n k

-- How the choice ends when the branch and the base have revisions.
abbrev pub IsPicked :
    (g : Git) → String → String → String → String → g.World → Step (Option String) g.World → Type 0
IsPicked g path component current base w x =
    ((tip g path w current ≡ tip g path w base) × (x ≡ did (some current) w))
    ⊎ (((tip g path w current == tip g path w base) ≡ false)
        × (is_merged g path w current base ≡ false)
        × (x ≡ did (some current) w))
    ⊎ (((tip g path w current == tip g path w base) ≡ false)
        × (is_merged g path w current base ≡ true)
        × ((n : ℕ) × IsFirstFree g path w component 2 n
            × (x ≡ did (some (attempt_name g path component n)) w)))

-- How the choice ends.
abbrev pub IsChoice :
    (g : Git) → String → String → String → String → g.World → Step (Option String) g.World → Type 0
IsChoice g path component current base w x =
    ((resolves g path w current ≡ false) × (x ≡ did (some current) w))
    ⊎ ((resolves g path w current ≡ true)
        × (has_revision g path w current ≡ false)
        × (x ≡ raised (complaint g path w current) w))
    ⊎ ((resolves g path w current ≡ true)
        × (has_revision g path w current ≡ true)
        × (has_revision g path w base ≡ false)
        × (x ≡ raised (complaint g path w base) w))
    ⊎ ((resolves g path w current ≡ true)
        × (has_revision g path w current ≡ true)
        × (has_revision g path w base ≡ true)
        × IsPicked g path component current base w x)

module _ (g : Git) (path : String) (w : g.World) (c : String) (taken : List String)
    (h : HasAttempts g path w c taken) where
  -- Taking one name out leaves the later ones.
  still-inside :
      (n k : ℕ) (left : List String)
      → suc n ≤ k
      → contains left (attempt_name g path c k) ≡ true
      → contains (minus left (attempt_name g path c n ∷ [])) (attempt_name g path c k) ≡ true
  still-inside n k left le inside =
      let a = attempt_name g path c n in
      let b = attempt_name g path c k in
      elim (Bool-cases (a == b)) [
        | inl e ↦ absurd (omega (arith, le, h.injective n k ((eq_iff a b).0 e)))
        | inr e ↦ contains-minus left (a ∷ []) b ∙ rw (inside, e) refl
      ]

  -- The search ends at the first name that is free, before the fuel does.
  next_attempt-free :
      (fuel n : ℕ) (left : List String)
      → length left < fuel
      → ((k : ℕ)
          → n ≤ k
          → contains taken (attempt_name g path c k) ≡ true
          → contains left (attempt_name g path c k) ≡ true)
      → (k : ℕ) × IsFirstFree g path w c n k
        × (next_attempt g path fuel c n w ≡ did (some (attempt_name g path c k)) w)
  unfolding next_attempt
  next_attempt-free zero n left l inside = absurd (omega (arith, l))
  next_attempt-free (suc fuel) n left l inside =
      let name = attempt_name g path c n in
      elim (Bool-cases (contains taken name)) [
        | inl e ↦
            let rest = minus left (name ∷ []) in
            let less : length rest < length left =
              length-filter-lt _ name left (contains→Has left name (inside n (omega arith) e))
                (rw (eq_refl name) refl) in
            let (k, first, found) =
              next_attempt-free fuel (suc n) rest (omega (arith, less, l))
                (λ k le inner. still-inside n k left le (inside k (omega (arith, le)) inner)) in
            (k, is_taken n k (h.finds n ∙ e) first, rw (h.finds n, e, h.reads_branch name) found)
        | inr e ↦ (n, stands_free n (h.finds n ∙ e), rw (h.finds n, e, h.reads_branch name) refl)
      ]

  unless_live-Picked :
      (current base : String) (fuel : ℕ)
      → length taken < fuel
      → (tip g path w current == tip g path w base) ≡ false
      → IsPicked g path c current base w (unless_live g path fuel c current base w)
  unfolding unless_live
  unless_live-Picked current base fuel l apart =
      elim (Bool-cases (is_merged g path w current base)) [
        | inl e ↦
            let (n, first, found) = next_attempt-free fuel 2 taken l (λ k le inner. inner) in
            inr (inr (apart, e, (n, first, rw (h.reads_base current base, e) found)))
        | inr e ↦ inr (inl (apart, e, rw (h.reads_base current base, e) refl))
      ]

  unless_first-Choice :
      (current base : String) (fuel : ℕ)
      → length taken < fuel
      → resolves g path w current ≡ true
      → IsChoice g path c current base w (unless_first g path fuel c current base w)
  unfolding unless_first
  unless_first-Choice current base fuel l there =
      elim (Bool-cases (has_revision g path w current)) [
        | inr e ↦ inr (inl (there, e, rw (h.reads_revision current, e) refl))
        | inl e ↦ elim (Bool-cases (has_revision g path w base)) [
          | inr d ↦ inr (
              inr (
                inl (there, e, d, rw (h.reads_revision current, e, h.reads_revision base, d) refl)))
          | inl d ↦ inr (
              inr (
                inr (
                  there,
                  e,
                  d,
                  rw (h.reads_revision current, e, h.reads_revision base, d)
                      (elim (Bool-cases (tip g path w current == tip g path w base)) [
                        | inl t ↦ rw t (inl ((eq_iff _ _).0 t, refl))
                        | inr t ↦ rw t (rw t at (unless_live-Picked current base fuel l t))
                      ]),
                )))
        ]
      ]

-- For a git whose queries only read, and of whose names of later attempts finitely many, listed ones
-- resolve, and decimal texts that tell numbers apart: with one unit of fuel more than the list is long,
-- `attempt_branch` ends, and the repository stays as it is. It keeps a branch that does not exist, one
-- that stands at the base, and one that is not merged into the base; for a merged one it gives the
-- first free name of a second or later attempt; and it raises what `rev-parse` of the branch or of the
-- base raises.
pub attempt_branch-IsChoice :
    (g : Git) (path : String) (w : g.World) (component : String) (taken : List String)
    → HasAttempts g path w component taken
    → (current base : String) (fuel : ℕ) → length taken < fuel
    → IsChoice g path component current base w (attempt_branch g path fuel component current base w)
unfolding attempt_branch
attempt_branch-IsChoice g path w component taken h current base fuel l =
    elim (Bool-cases (resolves g path w current)) [
      | inl e ↦
          rw (h.reads_branch current, e)
            (rw e at (unless_first-Choice g path w component taken h current base fuel l e))
      | inr e ↦ inl (e, rw (h.reads_branch current, e) refl)
    ]
