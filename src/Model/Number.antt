-- ===== src/Model/Number.antt =====
-- Python's numbers. A finite double is a whole number of quanta (2 ^ -1074), so the comparisons of
-- doubles are exact here, not-a-number and the infinities included. No arithmetic is done on them.
use minifleet.Prelude.{ℕ, ◌^◌, Bool, true, false, ◌||◌, ltb, eqb}

-- `negsuc n` is -(n + 1).
pub data ℤ : Type 0 where
  pos : ℕ → ℤ
  negsuc : ℕ → ℤ

abbrev pub eq_ℤ : ℤ → ℤ → Bool
eq_ℤ (pos a) (pos b) = eqb a b
eq_ℤ (negsuc a) (negsuc b) = eqb a b
eq_ℤ _ _ = false

abbrev pub lt_ℤ : ℤ → ℤ → Bool
lt_ℤ (pos a) (pos b) = ltb a b
lt_ℤ (pos a) (negsuc b) = false
lt_ℤ (negsuc a) (pos b) = true
lt_ℤ (negsuc a) (negsuc b) = ltb b a

pub data Float : Type 0 where
  nan neg_inf pos_inf : Float
  finite : ℤ → Float

-- `a < b`
abbrev pub lt_float : Float → Float → Bool
lt_float neg_inf (finite b) = true
lt_float neg_inf pos_inf = true
lt_float (finite a) (finite b) = lt_ℤ a b
lt_float (finite a) pos_inf = true
lt_float _ _ = false

-- `a == b`
abbrev pub eq_float : Float → Float → Bool
eq_float neg_inf neg_inf = true
eq_float (finite a) (finite b) = eq_ℤ a b
eq_float pos_inf pos_inf = true
eq_float _ _ = false

-- `a <= b`
abbrev pub le_float : Float → Float → Bool
le_float a b = lt_float a b || eq_float a b

-- 1.0, and an int as a double
unfoldable pub quanta : ℕ
quanta = 2 ^ 1074

abbrev pub one_float : Float
one_float = finite (pos quanta)
