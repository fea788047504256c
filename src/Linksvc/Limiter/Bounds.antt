-- ===== src/Linksvc/Limiter/Bounds.antt =====
-- The memory and the tokens of the limiter stay bounded.
use minifleet.Prelude.{
  ℕ, suc, ◌≤◌, String, true, ◌||◌, Option, none, some, List, [], ◌∷◌, ◌++◌, ◌≡◌, refl, sym, subst,
  arith, inl, inr, length, Dict, lookup, IsUnique, All, All-append, Bool-cases, length-append, eqb,
  length-filter-le,
}
use minifleet.Model.{Float, lt_float, eq_float, le_float, le_float_trans}
use minifleet.Linksvc.Limiter.{
  Arithmetic, Bucket, Limiter, new_limiter, min_float, level, remove, remember, allow, reset,
  zero_float,
}
use minifleet.Linksvc.Limiter.Buckets.{
  others, remember-buckets, suc-of, length-evict-le, All-evict, All-keep, contains-evict,
  IsUnique-evict, contains-remove, IsUnique-remove, IsUnique-last,
}

-- What the bounds need of IEEE arithmetic: an int gives a number, and subtracting one from a
-- number that is at least one does not give a larger one.
pub record IsOrdered (ar : Arithmetic) : Type 0 where
  pub number : (n : ℕ) → eq_float (ar.of_int n) (ar.of_int n) ≡ true
  pub sub_le :
      (t : Float) → le_float (ar.of_int 1) t ≡ true → le_float (ar.sub t (ar.of_int 1)) t ≡ true

abbrev pub Full : Float → String × Bucket → Type 0
Full burst e = le_float e.1.0 burst ≡ true

-- at most `max_keys` buckets, one for each key, none with more tokens than the burst
abbrev pub IsBounded : Limiter → Type 0
IsBounded l =
    (1 ≤ l.max_keys)
    × (eq_float l.burst l.burst ≡ true)
    × (length l.buckets ≤ l.max_keys)
    × IsUnique l.buckets
    × All (Full l.burst) l.buckets

-- The bounds on the buckets alone.
abbrev Bounds : ℕ → Float → Dict Bucket → Type 0
Bounds n burst d = (length d ≤ n) × IsUnique d × All (Full burst) d

others-Bounds :
    (k : String) (b : Bucket) (l : Limiter) (m : ℕ)
    → le_float b.0 l.burst ≡ true
    → IsUnique l.buckets
    → All (Full l.burst) l.buckets
    → Bounds (suc m) l.burst (others k l m ++ (k, b) ∷ [])
others-Bounds k b l m h u full = (
  omega (arith, length-append (others k l m) ((k, b) ∷ []), length-evict-le m (remove k l.buckets)),
  IsUnique-last k b (others k l m)
      (contains-evict m k (remove k l.buckets) (contains-remove k l.buckets))
      (IsUnique-evict m (remove k l.buckets) (IsUnique-remove k l.buckets u)),
  All-append (Full l.burst) (others k l m) ((k, b) ∷ [])
      (All-evict (Full l.burst) m (remove k l.buckets) (All-keep (Full l.burst) _ l.buckets full))
      (h, tt),
)

remember-IsBounded :
    (k : String) (b : Bucket) (l : Limiter)
    → le_float b.0 l.burst ≡ true
    → IsBounded l
    → IsBounded (remember k b l)
unfolding remember
remember-IsBounded k b l h (one, num, len, u, full) =
    let (m, e) = suc-of l.max_keys one in
    let (len2, u2, full2) =
      subst (λ d. Bounds l.max_keys l.burst d) (sym (remember-buckets k b l m e))
        (subst (λ n. Bounds n l.burst (others k l m ++ (k, b) ∷ [])) (sym e)
          (others-Bounds k b l m h u full)) in
    (one, num, len2, u2, full2)

min_float-le : (a b : Float) → eq_float a a ≡ true → le_float (min_float a b) a ≡ true
min_float-le a b h = elim (Bool-cases (lt_float b a)) [
  | inl e ↦ rw (e, e) refl
  | inr e ↦ rw (e, h) (ground arith)
]

level-le :
    (ar : Arithmetic) (l : Limiter) (now : Float) (o : Option Bucket)
    → eq_float l.burst l.burst ≡ true
    → le_float (level ar l now o) l.burst ≡ true
level-le ar l now none h = rw h (ground arith)
level-le ar l now (some (tokens, last)) h = min_float-le l.burst _ h

pub allow-IsBounded :
    (ar : Arithmetic)
    → IsOrdered ar
    → (now : Float) (k : String) (l : Limiter) → IsBounded l
    → IsBounded (allow ar now k l).1
unfolding allow
allow-IsBounded ar laws now k l b =
    let tokens = level ar l now (lookup k l.buckets) in
    let le = level-le ar l now (lookup k l.buckets) b.1 in
    elim (Bool-cases (le_float (ar.of_int 1) tokens)) [
      | inl e ↦ rw e (
          remember-IsBounded k (ar.sub tokens (ar.of_int 1), now) l
            (le_float_trans (ar.sub tokens (ar.of_int 1)) tokens l.burst (laws.sub_le tokens e) le)
            b)
      | inr e ↦ rw e (remember-IsBounded k (tokens, now) l le b)
    ]

length-remove-le : (k : String) (l : Limiter) → length (remove k l.buckets) ≤ length l.buckets
length-remove-le k l = length-filter-le _ l.buckets

reset-IsBounded : (k : Option String) (l : Limiter) → IsBounded l → IsBounded (reset k l)
unfolding reset
reset-IsBounded none l (one, num, len, u, full) = (one, num, omega arith, tt, tt)
reset-IsBounded (some k) l (one, num, len, u, full) = (
  one,
  num,
  omega (arith, length-remove-le k l),
  IsUnique-remove k l.buckets u,
  All-keep (Full l.burst) _ l.buckets full,
)

-- The calls that change the limiter, in the order in which they take the lock.
pub data LimiterCall : Type 0 where
  allowing : Float → String → LimiterCall
  resetting : Option String → LimiterCall

abbrev pub limit : Arithmetic → LimiterCall → Limiter → Limiter
limit ar (allowing now k) l = (allow ar now k l).1
limit ar (resetting k) l = reset k l

abbrev pub limit_all : Arithmetic → List LimiterCall → Limiter → Limiter
limit_all ar [] l = l
limit_all ar (c ∷ cs) l = limit_all ar cs (limit ar c l)

limit-IsBounded :
    (ar : Arithmetic)
    → IsOrdered ar
    → (c : LimiterCall) (l : Limiter) → IsBounded l
    → IsBounded (limit ar c l)
limit-IsBounded ar laws (allowing now k) l b = allow-IsBounded ar laws now k l b
limit-IsBounded ar laws (resetting k) l b = reset-IsBounded k l b

limit_all-keeps :
    (ar : Arithmetic)
    → IsOrdered ar
    → (cs : List LimiterCall) (l : Limiter) → IsBounded l
    → IsBounded (limit_all ar cs l)
limit_all-keeps ar laws [] l b = b
limit_all-keeps ar laws (c ∷ cs) l b =
    limit_all-keeps ar laws cs (limit ar c l) (limit-IsBounded ar laws c l b)

pub new_limiter-IsBounded :
    (ar : Arithmetic)
    → IsOrdered ar
    → (rate : Float) (burst max_keys : ℕ) (l : Limiter)
    → new_limiter ar rate burst max_keys ≡ some l
    → IsBounded l
unfolding new_limiter
new_limiter-IsBounded ar laws rate burst max_keys l h =
    elim (Bool-cases (le_float rate zero_float || eqb burst 0 || eqb max_keys 0)) [
      | inl e ↦ absurd (cc (rw e at h))
      | inr e ↦
          let start : Limiter = record {
            rate = rate;
            burst = ar.of_int burst;
            max_keys = max_keys;
            buckets = [];
          } in
          let same : start ≡ l = cc (rw e at h) in
          subst IsBounded same (ground arith, laws.number burst, omega arith, tt, tt)
    ]

-- Whatever calls a limiter that was made answers, at whatever readings of the clock: it keeps at
-- most `max_keys` buckets, one for each key, and no bucket has more tokens than the burst. The
-- arithmetic is one in which an int gives a number, and taking one from a number that is at least
-- one gives no larger one.
pub limit_all-IsBounded :
    (ar : Arithmetic)
    → IsOrdered ar
    → (rate : Float) (burst max_keys : ℕ) (l : Limiter)
    → new_limiter ar rate burst max_keys ≡ some l
    → (cs : List LimiterCall) → IsBounded (limit_all ar cs l)
limit_all-IsBounded ar laws rate burst max_keys l h cs =
    limit_all-keeps ar laws cs l (new_limiter-IsBounded ar laws rate burst max_keys l h)
