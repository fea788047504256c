-- ===== src/Prelude/Strings.antt =====
-- Sets of names: membership in a list of texts, inclusion, difference, and Python's order of texts.
use mathlib.Core.Path.{◌≡◌, refl}
use mathlib.Core.Logic.{inl, inr}
use mathlib.Core.Bool.{Bool, true, false, not, ◌&&◌, ◌||◌}
use mathlib.Core.List.{List, [], ◌∷◌, ◌++◌}
use Prim.Native.Nat.{ℕ}
use Prim.Native.Char.{Char, code}
use Prim.Native.String.{String}
use native.Mathlib.Omega.{arith}
use text.Mathlib.Text.{◌==◌}
use text.Mathlib.TextEquality.{eq_iff}
use minifleet.Prelude.Tests.{ltb, leb, eqb, if◌then◌else◌, Bool-cases}
use minifleet.Prelude.Lists.{filter, Has}

-- `name in names`
abbrev pub contains : List String → String → Bool
contains [] a = false
contains (x ∷ xs) a = x == a || contains xs a

-- `set(xs) <= set(ys)`
abbrev pub subset : List String → List String → Bool
subset [] ys = true
subset (x ∷ xs) ys = contains ys x && subset xs ys

-- the names of `xs` that are not in `ys`
abbrev pub minus : List String → List String → List String
minus xs ys = filter (λ x. not (contains ys x)) xs

-- `set(xs)`: each name once
abbrev pub dedup : List String → List String
dedup [] = []
dedup (x ∷ xs) = let rest = dedup xs in if contains rest x then rest else x ∷ rest

pub contains-append :
    (xs ys : List String) (a : String) → contains (xs ++ ys) a ≡ (contains xs a || contains ys a)
contains-append [] ys a = refl
contains-append (x ∷ xs) ys a = ground (arith, contains-append xs ys a)

pub subset-contains :
    (xs ys : List String) (a : String)
    → subset xs ys ≡ true
    → contains xs a ≡ true
    → contains ys a ≡ true
subset-contains [] ys a h k = ground arith
subset-contains (x ∷ xs) ys a h k = ground (arith, eq_iff x a, subset-contains xs ys a)

-- a name that keeps `xs` from lying in `ys`
pub subset_fails :
    (xs ys : List String)
    → subset xs ys ≡ false
    → (a : String) × (contains xs a ≡ true) × (contains ys a ≡ false)
subset_fails [] ys h = cc
subset_fails (x ∷ xs) ys h = elim (Bool-cases (contains ys x)) [
  | inl e ↦ let (a, inside, out) = subset_fails xs ys (rw e at h) in (a, ground arith, out)
  | inr e ↦ (x, ground (arith, eq_iff x x), e)
]

pub subset_mono :
    (xs ys zs : List String)
    → ((a : String) → contains ys a ≡ true → contains zs a ≡ true)
    → subset xs ys ≡ true
    → subset xs zs ≡ true
subset_mono [] ys zs f h = refl
subset_mono (x ∷ xs) ys zs f h = ground (arith, f x, subset_mono xs ys zs f)

pub contains-dedup : (xs : List String) (a : String) → contains (dedup xs) a ≡ contains xs a
contains-dedup [] a = refl
contains-dedup (x ∷ xs) a = ground (arith, contains-dedup xs a, contains-dedup xs x, eq_iff x a)

pub contains-minus :
    (xs ys : List String) (a : String)
    → contains (minus xs ys) a ≡ (contains xs a && not (contains ys a))
contains-minus [] ys a = refl
contains-minus (x ∷ xs) ys a = ground (arith, contains-minus xs ys a, eq_iff x a)

pub contains→Has : (xs : List String) (a : String) → contains xs a ≡ true → Has a xs
contains→Has [] a h = ground arith
contains→Has (x ∷ xs) a h = ground (arith, eq_iff x a, contains→Has xs a)

pub Has→contains : (xs : List String) (a : String) → Has a xs → contains xs a ≡ true
Has→contains [] a m = absurd m
Has→contains (x ∷ xs) a m = ground (arith, eq_iff x a, Has→contains xs a)

pub subset_of_contains :
    (xs ys : List String)
    → ((a : String) → contains xs a ≡ true → contains ys a ≡ true)
    → subset xs ys ≡ true
subset_of_contains [] ys h = refl
subset_of_contains (x ∷ xs) ys h =
    ground (arith, h x, eq_iff x x, subset_of_contains xs ys (λ a m. h a (ground arith)))

-- A text's code points.
abbrev pub codes : String → List ℕ
codes String.[] = []
codes (String.◌∷◌ c s) = code c ∷ codes s

-- Python's `<=` on sequences.
pub lex_le : List ℕ → List ℕ → Bool
lex_le [] ys = true
lex_le (x ∷ xs) [] = false
lex_le (x ∷ xs) (y ∷ ys) = ltb x y || eqb x y && lex_le xs ys

-- `a <= b` of two texts
unfoldable pub str_le : String → String → Bool
unfolding lex_le
str_le a b = lex_le (codes a) (codes b)

lex_le_total : (xs ys : List ℕ) → lex_le xs ys ≡ false → lex_le ys xs ≡ true
unfolding lex_le
lex_le_total [] ys h = ground arith
lex_le_total (x ∷ xs) [] h = refl
lex_le_total (x ∷ xs) (y ∷ ys) h = ground (arith, lex_le_total xs ys)

lex_le_trans : (xs ys zs : List ℕ) → lex_le xs ys ≡ true → lex_le ys zs ≡ true → lex_le xs zs ≡ true
unfolding lex_le
lex_le_trans [] ys zs h k = refl
lex_le_trans (x ∷ xs) [] zs h k = ground arith
lex_le_trans (x ∷ xs) (y ∷ ys) [] h k = k
lex_le_trans (x ∷ xs) (y ∷ ys) (z ∷ zs) h k = ground (arith, lex_le_trans xs ys zs)

pub str_le_total : (a b : String) → str_le a b ≡ false → str_le b a ≡ true
unfolding str_le
str_le_total a b h = lex_le_total (codes a) (codes b) h

pub str_le_trans : (a b c : String) → str_le a b ≡ true → str_le b c ≡ true → str_le a c ≡ true
unfolding str_le
str_le_trans a b c h k = lex_le_trans (codes a) (codes b) (codes c) h k

-- the line boundaries of `str.splitlines`
abbrev pub is_break : ℕ → Bool
is_break c =
    leb 10 c && leb c 13 || leb 28 c && leb c 30 || eqb c 0x85 || eqb c 0x2028 || eqb c 0x2029

-- the white space of `str.strip`
abbrev pub is_space : ℕ → Bool
is_space c =
    leb 9 c && leb c 13
    || leb 28 c && leb c 32
    || eqb c 0x85
    || eqb c 0xa0
    || eqb c 0x1680
    || leb 0x2000 c && leb c 0x200a
    || eqb c 0x2028
    || eqb c 0x2029
    || eqb c 0x202f
    || eqb c 0x205f
    || eqb c 0x3000

abbrev trim_left : String → String
trim_left String.[] = ""
trim_left (String.◌∷◌ c s) =
    let rest = trim_left s in if is_space (code c) then rest else String.◌∷◌ c s

abbrev pub trim_right : String → String
trim_right String.[] = ""
trim_right (String.◌∷◌ c s) =
    let rest = trim_right s in if is_space (code c) && rest == "" then "" else String.◌∷◌ c rest

-- `str.strip`
unfoldable pub trim : String → String
trim s = trim_right (trim_left s)

abbrev pub onto_part : Char → List String → List String
onto_part c [] = String.◌∷◌ c "" ∷ []
onto_part c (p ∷ ps) = String.◌∷◌ c p ∷ ps

-- `s.split("/")`
unfoldable pub split_slash : String → List String
split_slash String.[] = "" ∷ []
split_slash (String.◌∷◌ c s) =
    let rest = split_slash s in if eqb (code c) b'/' then "" ∷ rest else onto_part c rest
