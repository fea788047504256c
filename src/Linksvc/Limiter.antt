-- ===== src/Linksvc/Limiter.antt =====
-- `TokenBucketLimiter` of examples/linksvc/linksvc/ratelimit.py.
--
-- The arithmetic of doubles and the readings of the clock are arguments. Each method holds the
-- lock from its first read of the buckets to its end, so a method is one step.
pub mod Buckets
pub mod Bounds
pub mod Isolation
pub mod Burst
use minifleet.Prelude.{
  ℕ, suc, String, Bool, true, false, not, ◌||◌, Option, none, some, List, [], ◌∷◌, ◌++◌, length,
  filter, ltb, eqb, ◌==◌, if◌then◌else◌, Dict, lookup, insert, map,
}
use minifleet.Model.{Float, finite, pos, lt_float, le_float}

-- The operations on doubles that the limiter uses; `of_int` is `float` of an int.
pub record Arithmetic : Type 0 where
  pub add : Float → Float → Float
  pub sub : Float → Float → Float
  pub mul : Float → Float → Float
  pub div : Float → Float → Float
  pub of_int : ℕ → Float

-- the tokens and the time they were counted at
abbrev pub Bucket : Type 0
Bucket = Float × Float

pub record Limiter : Type 0 where
  pub rate : Float
  pub burst : Float
  pub max_keys : ℕ
  pub buckets : Dict Bucket

abbrev pub zero_float : Float
zero_float = finite (pos 0)

-- `__init__`; `none` is the ValueError
unfoldable pub new_limiter : Arithmetic → Float → ℕ → ℕ → Option Limiter
new_limiter ar rate burst max_keys =
    if le_float rate zero_float || eqb burst 0 || eqb max_keys 0
    then none
    else some (record { rate = rate; burst = ar.of_int burst; max_keys = max_keys; buckets = [] })

-- `min(a, b)` and `max(a, b)`
abbrev pub min_float : Float → Float → Float
min_float a b = if lt_float b a then b else a

abbrev pub max_float : Float → Float → Float
max_float a b = if lt_float a b then b else a

abbrev pub refilled : Arithmetic → Limiter → Float → Bucket → Float
refilled ar l now (tokens, last) =
    min_float l.burst (ar.add tokens (ar.mul (max_float zero_float (ar.sub now last)) l.rate))

-- the tokens that a key has now
abbrev pub level : Arithmetic → Limiter → Float → Option Bucket → Float
level ar l now none = l.burst
level ar l now (some b) = refilled ar l now b

-- `d.pop(key, None)`
abbrev pub remove {ℓ} : {V : Type ℓ} → String → Dict V → Dict V
remove k d = filter (λ e. not (e.0 == k)) d

abbrev pub moved {ℓ} : {V : Type ℓ} → String → Option V → Dict V → Dict V
moved k none d = d
moved k (some v) d = remove k d ++ (k, v) ∷ []

abbrev pub move_to_end {ℓ} : {V : Type ℓ} → String → Dict V → Dict V
move_to_end k d = moved k (lookup k d) d

-- `while len(d) > bound: d.popitem(last=False)`
abbrev pub evict {ℓ} : {A : Type ℓ} → ℕ → List A → List A
evict bound [] = []
evict bound (e ∷ d) = let rest = evict bound d in if ltb bound (suc (length d)) then rest else e ∷ d

-- `_remember`
unfoldable pub remember : String → Bucket → Limiter → Limiter
remember k b l = record l { buckets = evict l.max_keys (move_to_end k (insert k b l.buckets)) }

pub record Answer : Type 0 where
  pub allowed : Bool
  pub retry_after : Float

unfoldable pub allow : Arithmetic → Float → String → Limiter → Answer × Limiter
allow ar now k l =
    let tokens = level ar l now (lookup k l.buckets) in
    let one = ar.of_int 1 in
    if le_float one tokens
    then (
      record { allowed = true; retry_after = zero_float },
      remember k (ar.sub tokens one, now) l,
    )
    else (
      record { allowed = false; retry_after = ar.div (ar.sub one tokens) l.rate },
      remember k (tokens, now) l,
    )

abbrev pub wait_for : Arithmetic → Limiter → Float → Float
wait_for ar l tokens =
    let one = ar.of_int 1 in
    if le_float one tokens then zero_float else ar.div (ar.sub one tokens) l.rate

-- the method `retry_after`
unfoldable pub time_to_token : Arithmetic → Float → String → Limiter → Float
time_to_token ar now k l = elim (lookup k l.buckets) [
  | none ↦ zero_float
  | some b ↦ wait_for ar l (refilled ar l now b)
]

unfoldable pub reset : Option String → Limiter → Limiter
reset none l = record l { buckets = [] }
reset (some k) l = record l { buckets = remove k l.buckets }

abbrev pub tracked_keys : Limiter → ℕ
tracked_keys l = length l.buckets
