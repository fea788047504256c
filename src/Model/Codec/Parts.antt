-- ===== src/Model/Codec/Parts.antt =====
-- The values of the fields: texts, lists, dicts and numbers, written and read.
use minifleet.Prelude.{
  ℕ, suc, ◌*◌, ◌-◌, String, Bool, true, false, not, Option, none, some, List, [], ◌∷◌,
  if◌then◌else◌, eqb, ◌==◌,
}
use Prim.Native.Nat.{◌/◌}
use minifleet.Model.{
  ℤ, pos, negsuc, Float, finite, quanta, eq_float, Value, null, bool, number, text, array, object,
  Items, nil, cons, Fields, end, field, bit,
}

infixl 5 ◌>>=◌
abbrev pub ◌>>=◌ {ℓ κ} : {A : Type ℓ} {B : Type κ} → Option A → (A → Option B) → Option B
none >>= f = none
some a >>= f = f a

abbrev pub text_items : List String → Items
text_items [] = nil
text_items (x ∷ xs) = cons (text x) (text_items xs)

abbrev pub texts : List String → Value
texts xs = array (text_items xs)

unfoldable pub texts_of : Items → Option (List String)
texts_of nil = some []
texts_of (cons (text x) vs) = do xs ← texts_of vs; some (x ∷ xs)
texts_of (cons v vs) = none

abbrev pub text_fields : List (String × String) → Fields
text_fields [] = end
text_fields ((k, x) ∷ xs) = field k (text x) (text_fields xs)

abbrev pub text_dict : List (String × String) → Value
text_dict xs = object (text_fields xs)

unfoldable pub pairs_of : Fields → Option (List (String × String))
pairs_of end = some []
pairs_of (field k (text x) fs) = do xs ← pairs_of fs; some ((k, x) ∷ xs)
pairs_of (field k v fs) = none

-- `data[key]`
abbrev pub as_text : Option Value → Option String
as_text (some (text s)) = some s
as_text o = none

-- `data.get(key, default)`
abbrev pub text_or : String → Option Value → Option String
text_or d none = some d
text_or d (some (text s)) = some s
text_or d (some v) = none

abbrev pub texts_or : List String → Option Value → Option (List String)
texts_or d none = some d
texts_or d (some (array vs)) = texts_of vs
texts_or d (some v) = none

abbrev pub text_dict_or : List (String × String) → Option Value → Option (List (String × String))
text_dict_or d none = some d
text_dict_or d (some (object fs)) = pairs_of fs
text_dict_or d (some v) = none

abbrev pub float_or : Float → Option Value → Option Float
float_or d none = some d
float_or d (some (number x)) = some x
float_or d (some v) = none

abbrev pub flag_or : Bool → Option Value → Option Bool
flag_or d none = some d
flag_or d (some (bool b)) = some b
flag_or d (some v) = none

abbrev pub value_or : Value → Option Value → Value
value_or d none = d
value_or d (some v) = v

-- `bool(value)`
abbrev pub truth : Value → Bool
truth null = false
truth (bool b) = b
truth (number x) = not (eq_float x (finite (pos 0)))
truth (text s) = not (s == "")
truth (array nil) = false
truth (array vs) = true
truth (object end) = false
truth (object fs) = true

abbrev pub truth_or : Bool → Option Value → Bool
truth_or d none = d
truth_or d (some v) = truth v

-- an int as a number of JSON
abbrev pub whole : ℤ → Float
whole (pos n) = finite (pos (n * quanta))
whole (negsuc n) = finite (negsuc (suc n * quanta - 1))

abbrev pub multiple : ℕ → Option ℕ
multiple q = let n = q / quanta in if eqb (n * quanta) q then some n else none

abbrev pub below_zero : ℕ → ℤ
below_zero n = negsuc (n - 1)

abbrev pub whole_of : Float → Option ℤ
whole_of (finite (pos q)) = do n ← multiple q; some (pos n)
whole_of (finite (negsuc q)) = do n ← multiple (suc q); some (below_zero n)
whole_of x = none

abbrev pub whole_items : List ℤ → Items
whole_items [] = nil
whole_items (n ∷ ns) = cons (number (whole n)) (whole_items ns)

unfoldable pub wholes_of : Items → Option (List ℤ)
wholes_of nil = some []
wholes_of (cons (number x) vs) = do n ← whole_of x; ns ← wholes_of vs; some (n ∷ ns)
wholes_of (cons v vs) = none

abbrev pub wholes_or : List ℤ → Option Value → Option (List ℤ)
wholes_or d none = some d
wholes_or d (some (array vs)) = wholes_of vs
wholes_or d (some v) = none

-- `float(value)`, with the parsing of a text
abbrev pub to_float : (String → Option Float) → Value → Option Float
to_float parse (number x) = some x
to_float parse (bool b) = some (bit b)
to_float parse (text s) = parse s
to_float parse v = none

abbrev pub float_fields : List (String × Float) → Fields
float_fields [] = end
float_fields ((k, x) ∷ xs) = field k (number x) (float_fields xs)

unfoldable pub floats_of : (String → Option Float) → Fields → Option (List (String × Float))
floats_of parse end = some []
floats_of parse (field k v fs) = do
  x ← to_float parse v
  xs ← floats_of parse fs
  some ((k, x) ∷ xs)

abbrev pub float_dict : (String → Option Float) → Value → Option (List (String × Float))
float_dict parse (object fs) = floats_of parse fs
float_dict parse v = none

-- `data.get(key) or {}`
abbrev pub floats_or_empty : (String → Option Float) → Option Value → Option (List (String × Float))
floats_or_empty parse none = some []
floats_or_empty parse (some v) = let xs = float_dict parse v in if truth v then xs else some []

abbrev pub value_fields : List (String × Value) → Fields
value_fields [] = end
value_fields ((k, v) ∷ xs) = field k v (value_fields xs)

unfoldable pub values_of : Fields → List (String × Value)
values_of end = []
values_of (field k v fs) = (k, v) ∷ values_of fs

abbrev pub values_or : Option Value → Option (List (String × Value))
values_or none = some []
values_or (some (object fs)) = some (values_of fs)
values_or (some v) = none

-- a list of records
module _ {A : Type 0} where
  abbrev pub object_items : (A → Fields) → List A → Items
  object_items encode [] = nil
  object_items encode (a ∷ rest) = cons (object (encode a)) (object_items encode rest)

  unfoldable pub objects_of : (Fields → Option A) → Items → Option (List A)
  objects_of decode nil = some []
  objects_of decode (cons (object fs) vs) = do
    a ← decode fs
    rest ← objects_of decode vs
    some (a ∷ rest)
  objects_of decode (cons v vs) = none

  abbrev pub objects_or : (Fields → Option A) → Option Value → Option (List A)
  objects_or decode none = some []
  objects_or decode (some (array vs)) = objects_of decode vs
  objects_or decode (some v) = none
