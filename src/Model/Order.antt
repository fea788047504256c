-- ===== src/Model/Order.antt =====
-- The order of whole numbers and of doubles.
use minifleet.Prelude.{true, ◌||◌, ◌≡◌, refl, arith, ◌⊎◌, inl, inr, ap}
use minifleet.Model.Number.{
  ℤ, pos, negsuc, lt_ℤ, eq_ℤ, Float, nan, neg_inf, pos_inf, finite, le_float,
}

pub lt_ℤ-cases : (a b : ℤ) → (lt_ℤ a b ≡ true) ⊎ (eq_ℤ a b ≡ true) ⊎ (lt_ℤ b a ≡ true)
lt_ℤ-cases (pos a) (pos b) = ground arith
lt_ℤ-cases (pos a) (negsuc b) = inr (inr refl)
lt_ℤ-cases (negsuc a) (pos b) = inl refl
lt_ℤ-cases (negsuc a) (negsuc b) = ground arith

pub eq_ℤ→eq : (a b : ℤ) → eq_ℤ a b ≡ true → a ≡ b
eq_ℤ→eq (pos a) (pos b) h = ap pos (ground arith)
eq_ℤ→eq (pos a) (negsuc b) h = cc
eq_ℤ→eq (negsuc a) (pos b) h = cc
eq_ℤ→eq (negsuc a) (negsuc b) h = ap negsuc (ground arith)

pub eq_ℤ-refl : (a : ℤ) → eq_ℤ a a ≡ true
eq_ℤ-refl (pos a) = ground arith
eq_ℤ-refl (negsuc a) = ground arith

pub lt_ℤ-trans : (a b c : ℤ) → lt_ℤ a b ≡ true → lt_ℤ b c ≡ true → lt_ℤ a c ≡ true
lt_ℤ-trans (pos a) (pos b) (pos c) h k = ground arith
lt_ℤ-trans (pos a) (pos b) (negsuc c) h k = cc
lt_ℤ-trans (pos a) (negsuc b) c h k = cc
lt_ℤ-trans (negsuc a) (pos b) (pos c) h k = refl
lt_ℤ-trans (negsuc a) (pos b) (negsuc c) h k = cc
lt_ℤ-trans (negsuc a) (negsuc b) (pos c) h k = refl
lt_ℤ-trans (negsuc a) (negsuc b) (negsuc c) h k = ground arith

le_ℤ-trans :
    (a b c : ℤ)
    → (lt_ℤ a b || eq_ℤ a b) ≡ true
    → (lt_ℤ b c || eq_ℤ b c) ≡ true
    → (lt_ℤ a c || eq_ℤ a c) ≡ true
le_ℤ-trans a b c h k = ground (arith, lt_ℤ-trans a b c, eq_ℤ→eq a b, eq_ℤ→eq b c)

pub le_float_trans :
    (a b c : Float) → le_float a b ≡ true → le_float b c ≡ true → le_float a c ≡ true
le_float_trans nan b c h k = cc
le_float_trans neg_inf nan nan h k = cc
le_float_trans neg_inf neg_inf nan h k = cc
le_float_trans neg_inf pos_inf nan h k = cc
le_float_trans neg_inf (finite y) nan h k = cc
le_float_trans neg_inf b neg_inf h k = refl
le_float_trans neg_inf b pos_inf h k = refl
le_float_trans neg_inf b (finite z) h k = refl
le_float_trans pos_inf pos_inf c h k = k
le_float_trans pos_inf nan c h k = cc
le_float_trans pos_inf neg_inf c h k = cc
le_float_trans pos_inf (finite y) c h k = cc
le_float_trans (finite x) nan c h k = cc
le_float_trans (finite x) neg_inf c h k = cc
le_float_trans (finite x) pos_inf nan h k = cc
le_float_trans (finite x) pos_inf neg_inf h k = cc
le_float_trans (finite x) pos_inf pos_inf h k = refl
le_float_trans (finite x) pos_inf (finite z) h k = cc
le_float_trans (finite x) (finite y) nan h k = cc
le_float_trans (finite x) (finite y) neg_inf h k = cc
le_float_trans (finite x) (finite y) pos_inf h k = refl
le_float_trans (finite x) (finite y) (finite z) h k = le_ℤ-trans x y z h k
