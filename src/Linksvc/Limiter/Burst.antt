-- ===== src/Linksvc/Limiter/Burst.antt =====
-- How many requests of a key pass at one instant.
use minifleet.Prelude.{
  ℕ, suc, zero, ◌≤◌, ◌+◌, String, Bool, true, false, none, some, ◌≡◌, refl, ap, ◌∙◌, arith, inl,
  inr, lookup, Bool-cases, if-both, ltb, eq_refl,
}
use minifleet.Model.{Float, lt_float, le_float}
use minifleet.Linksvc.Limiter.{
  Arithmetic, Limiter, min_float, max_float, level, remember, allow, zero_float,
}
use minifleet.Linksvc.Limiter.Buckets.{suc-of}
use minifleet.Linksvc.Limiter.Isolation.{remember-lookup}

-- What the count needs of IEEE arithmetic at the whole numbers up to the burst (which it has up to
-- 2 ^ 53), with a finite reading of the clock: ints compare as they are, one less is exact, and no
-- time adds no tokens.
pub record IsExact (ar : Arithmetic) (rate now : Float) (burst : ℕ) : Type 0 where
  pub one_le : (n : ℕ) → suc n ≤ burst → le_float (ar.of_int 1) (ar.of_int (suc n)) ≡ true
  pub one_gt : le_float (ar.of_int 1) (ar.of_int 0) ≡ false
  pub lt : (n : ℕ) → suc n ≤ burst → lt_float (ar.of_int n) (ar.of_int burst) ≡ true
  pub pred : (n : ℕ) → suc n ≤ burst → ar.sub (ar.of_int (suc n)) (ar.of_int 1) ≡ ar.of_int n
  pub no_time :
      (n : ℕ)
      → n ≤ burst
      → ar.add (ar.of_int n) (ar.mul (max_float zero_float (ar.sub now now)) rate) ≡ ar.of_int n

-- `n` requests of the key at one instant: how many passed, and the limiter behind them
abbrev pub count : Bool → ℕ
count true = 1
count false = 0

abbrev pub passed : Arithmetic → Float → String → ℕ → Limiter → ℕ
passed ar now k zero l = 0
passed ar now k (suc n) l =
    count (allow ar now k l).0.allowed + passed ar now k n (allow ar now k l).1

abbrev pub least : ℕ → ℕ → ℕ
least zero b = 0
least (suc a) zero = 0
least (suc a) (suc b) = suc (least a b)

-- the limiter has `a` tokens for the key now
abbrev pub IsReady : Arithmetic → Float → String → Float → ℕ → ℕ → Limiter → Type 0
IsReady ar now k rate burst a l =
    (1 ≤ l.max_keys)
    × (l.rate ≡ rate)
    × (l.burst ≡ ar.of_int burst)
    × (level ar l now (lookup k l.buckets) ≡ ar.of_int a)

least-nothing : (n : ℕ) → least n 0 ≡ 0
least-nothing zero = refl
least-nothing (suc n) = refl

min_float-int :
    (ar : Arithmetic) (rate now : Float) (burst a : ℕ)
    → IsExact ar rate now burst
    → a ≤ burst
    → min_float (ar.of_int burst) (ar.of_int a) ≡ ar.of_int a
min_float-int ar rate now burst a x h = elim (Bool-cases (ltb a burst)) [
  | inl e ↦ rw (x.lt a (ground arith)) refl
  | inr e ↦
      let same : a ≡ burst = ground arith in
      rw same (
        if-both (λ f. f ≡ ar.of_int burst) (lt_float (ar.of_int burst) (ar.of_int burst)) refl refl)
]

remember-IsReady :
    (ar : Arithmetic) (rate now : Float) (burst a b : ℕ) (k : String) (l : Limiter)
    → IsExact ar rate now burst
    → a ≤ burst
    → IsReady ar now k rate burst b l
    → IsReady ar now k rate burst a (remember k (ar.of_int a, now) l)
unfolding remember
remember-IsReady ar rate now burst a b k l x h (one, r, f, _) =
    let (m, e) = suc-of l.max_keys one in
    let l' = remember k (ar.of_int a, now) l in
    let seen = remember-lookup k (ar.of_int a, now) l k m e in
    let kept : lookup k l'.buckets ≡ some (ar.of_int a, now) = rw (eq_refl k) at seen in
    (
      one,
      r,
      f,
      ap (level ar l' now) kept ∙ rw (r, f, x.no_time a h) (min_float-int ar rate now burst a x h),
    )

module _ (ar : Arithmetic) (rate now : Float) (burst : ℕ) (x : IsExact ar rate now burst)
    (k : String) where
  allow-one :
      (a : ℕ) (l : Limiter)
      → suc a ≤ burst
      → IsReady ar now k rate burst (suc a) l
      → ((allow ar now k l).0.allowed ≡ true)
        × ((allow ar now k l).1 ≡ remember k (ar.of_int a, now) l)
  unfolding allow
  allow-one a l h (one, r, f, e) = rw (e, x.one_le a h, x.pred a h) (refl, refl)

  allow-zero :
      (l : Limiter)
      → IsReady ar now k rate burst 0 l
      → ((allow ar now k l).0.allowed ≡ false)
        × ((allow ar now k l).1 ≡ remember k (ar.of_int 0, now) l)
  unfolding allow
  allow-zero l (one, r, f, e) = rw (e, x.one_gt) (refl, refl)

  passed-least :
      (n a : ℕ) (l : Limiter)
      → a ≤ burst
      → IsReady ar now k rate burst a l
      → passed ar now k n l ≡ least n a
  passed-least zero a l h ready = refl
  passed-least (suc n) zero l h ready =
      let (closed, same) = allow-zero l ready in
      let next = remember k (ar.of_int 0, now) l in
      let rest = passed-least n 0 next h (remember-IsReady ar rate now burst 0 0 k l x h ready) in
      rw (closed, same) (omega (arith, rest ∙ least-nothing n))
  passed-least (suc n) (suc a) l h ready =
      let (opened, same) = allow-one a l h ready in
      let next = remember k (ar.of_int a, now) l in
      let fits : a ≤ burst = omega arith in
      let rest =
        passed-least n a next fits
          (remember-IsReady ar rate now burst a (suc a) k l x fits ready) in
      rw (opened, same) (omega (arith, rest))

-- A key that the limiter does not track has the whole burst, and never more at once: of `n`
-- requests at one instant exactly the smaller one of `n` and the burst pass. The arithmetic is
-- exact at the whole numbers up to the burst, and no time adds no tokens.
pub allow-burst :
    (ar : Arithmetic) (rate now : Float) (burst : ℕ)
    → IsExact ar rate now burst
    → (k : String) (l : Limiter) → 1 ≤ l.max_keys
    → l.rate ≡ rate
    → l.burst ≡ ar.of_int burst
    → lookup k l.buckets ≡ none
    → (n : ℕ) → passed ar now k n l ≡ least n burst
allow-burst ar rate now burst x k l one r f free n =
    passed-least ar rate now burst x k n burst l (omega arith)
      (one, r, f, ap (level ar l now) free ∙ f)
