-- ===== src/Model/Json.antt =====
-- What a JSON text decodes to, and Python's `==` on it: a bool equals the number 0 or 1, and a
-- dict's order does not matter.
use minifleet.Prelude.{
  ℕ, String, Bool, List, [], ◌∷◌, true, false, ◌&&◌, Option, none, some, ◌==◌, if◌then◌else◌, eqb,
}
use minifleet.Model.Number.{pos, Float, finite, one_float, eq_float}

mutual
  pub data Value : Type 0 where
    null : Value
    bool : Bool → Value
    number : Float → Value
    text : String → Value
    array : Items → Value
    object : Fields → Value

  pub data Items : Type 0 where
    nil : Items
    cons : Value → Items → Items

  pub data Fields : Type 0 where
    end : Fields
    field : String → Value → Fields → Fields

abbrev pub get_field : String → Fields → Option Value
get_field k end = none
get_field k (field j v fs) = if j == k then some v else get_field k fs

abbrev pub get_item : ℕ → Items → Option Value
get_item n nil = none
get_item ℕ.zero (cons v vs) = some v
get_item (ℕ.suc n) (cons v vs) = get_item n vs

abbrev pub size : Fields → ℕ
size end = 0
size (field k v fs) = ℕ.suc (size fs)

abbrev pub bit : Bool → Float
bit true = one_float
bit false = finite (pos 0)

-- `a == b` at the numbers, the bools among them.
abbrev eq_number : Float → Value → Bool
eq_number x (bool b) = eq_float x (bit b)
eq_number x (number y) = eq_float x y
eq_number x _ = false

unfoldable mutual
  pub eq_value : Value → Value → Bool
  eq_value null null = true
  eq_value (bool a) b = eq_number (bit a) b
  eq_value (number x) b = eq_number x b
  eq_value (text s) (text t) = s == t
  eq_value (array xs) (array ys) = eq_items xs ys
  eq_value (object fs) (object gs) = eqb (size fs) (size gs) && eq_fields fs gs
  eq_value _ _ = false

  pub eq_items : Items → Items → Bool
  eq_items nil nil = true
  eq_items (cons x xs) (cons y ys) = eq_value x y && eq_items xs ys
  eq_items _ _ = false

  -- each field of the first stands in the second, with an equal value
  pub eq_fields : Fields → Fields → Bool
  eq_fields end gs = true
  eq_fields (field k v fs) gs = elim (get_field k gs) [
    | none ↦ false
    | some w ↦ eq_value v w && eq_fields fs gs
  ]

abbrev pub field_names : Fields → List String
field_names end = []
field_names (field k v fs) = k ∷ field_names fs
