-- ===== src/Gates/Output.antt =====
-- What minifleet/gates.py reads out of a command's output: `parse_metrics` and `diagnose`. An
-- output is a list of code points.
use minifleet.Prelude.{
  ℕ, String, Bool, true, false, not, ◌&&◌, ◌||◌, Option, none, some, List, [], ◌∷◌, ◌++◌, map,
  if◌then◌else◌, eqb, any, filter, is_empty, take, codes, is_space, is_break, Dict, insert,
}
use minifleet.Model.{pos, Float, finite, one_float, Value, bool, number, text, object, get_field}

abbrev onto_line : ℕ → List (List ℕ) → List (List ℕ)
onto_line c [] = (c ∷ []) ∷ []
onto_line c (l ∷ ls) = (c ∷ l) ∷ ls

-- `after_cr` is set behind a carriage return, which takes a line feed with it
lines_from : Bool → List ℕ → List (List ℕ)
lines_from after_cr [] = []
lines_from after_cr (c ∷ cs) =
    let rest = lines_from (eqb c 13) cs in
    if after_cr && eqb c 10 then rest else if is_break c then [] ∷ rest else onto_line c rest

unfoldable pub splitlines : List ℕ → List (List ℕ)
unfolding lines_from
splitlines = lines_from false

strip_left : List ℕ → List ℕ
strip_left [] = []
strip_left (c ∷ cs) = if is_space c then strip_left cs else c ∷ cs

strip_right : List ℕ → List ℕ
strip_right [] = []
strip_right (c ∷ cs) =
    let rest = strip_right cs in if is_space c && is_empty rest then [] else c ∷ rest

unfoldable pub strip : List ℕ → List ℕ
unfolding strip_left strip_right
strip cs = strip_right (strip_left cs)

-- `s[len(prefix):]` where `s.startswith(prefix)`
unfoldable pub after_prefix : List ℕ → List ℕ → Option (List ℕ)
after_prefix [] cs = some cs
after_prefix (p ∷ ps) [] = none
after_prefix (p ∷ ps) (c ∷ cs) = if eqb p c then after_prefix ps cs else none

abbrev pub metric_prefix : List ℕ
metric_prefix = codes "MINIFLEET_METRIC"

-- `float(value)`, with the parsing of a text as a parameter; `none` is an exception
abbrev to_float : (String → Option Float) → Option Value → Option Float
to_float parse (some (number x)) = some x
to_float parse (some (bool true)) = some one_float
to_float parse (some (bool false)) = some (finite (pos 0))
to_float parse (some (text s)) = parse s
to_float parse _ = none

-- `json.loads` and `float` of a text
pub record Decoder : Type 0 where
  pub loads : List ℕ → Option Value
  pub parse_float : String → Option Float

module _ (d : Decoder) where
  abbrev add_metric : Option Value → Dict Float → Dict Float
  add_metric (some (object fs)) metrics = elim (get_field "name" fs) [
    | some (text name) ↦ elim (to_float d.parse_float (get_field "value" fs)) [
      | some x ↦ insert name x metrics
      | none ↦ metrics
    ]
    | _ ↦ metrics
  ]
  add_metric _ metrics = metrics

  -- one line of the loop
  unfoldable pub read_line : List ℕ → Dict Float → Dict Float
  unfolding strip after_prefix
  read_line line metrics = elim (after_prefix metric_prefix (strip line)) [
    | none ↦ metrics
    | some payload ↦ add_metric (d.loads (strip payload)) metrics
  ]

  unfoldable pub read_lines : List (List ℕ) → Dict Float → Dict Float
  unfolding read_line
  read_lines [] metrics = metrics
  read_lines (l ∷ ls) metrics = read_lines ls (read_line l metrics)

  unfoldable pub parse_metrics : List ℕ → Dict Float
  unfolding read_lines splitlines
  parse_metrics output = read_lines (splitlines output) []

is_prefix : List ℕ → List ℕ → Bool
is_prefix [] cs = true
is_prefix (p ∷ ps) [] = false
is_prefix (p ∷ ps) (c ∷ cs) = eqb p c && is_prefix ps cs

-- `marker in line`
within : List ℕ → List ℕ → Bool
unfolding is_prefix
within m [] = is_empty m
within m (c ∷ cs) = is_prefix m (c ∷ cs) || within m cs

abbrev markers : List (List ℕ)
markers = map codes ("AssertionError" ∷ "Error" ∷ "error:" ∷ "FAILED" ∷ "Traceback" ∷ "not ok" ∷ [])

eq_text : List ℕ → List ℕ → Bool
eq_text [] [] = true
eq_text (a ∷ l) (b ∷ m) = eqb a b && eq_text l m
eq_text _ _ = false

-- the loop with `seen`
unseen : List (List ℕ) → List (List ℕ) → List (List ℕ)
unseen seen [] = seen
unseen seen (l ∷ ls) = unseen (if any (eq_text l) seen then seen else seen ++ l ∷ []) ls

last_two : List (List ℕ) → List (List ℕ)
last_two (a ∷ b ∷ c ∷ ls) = last_two (b ∷ c ∷ ls)
last_two ls = ls

join : List (List ℕ) → List ℕ
join [] = []
join (l ∷ []) = l
join (l ∷ m ∷ ls) = l ++ (codes " | " ++ join (m ∷ ls))

unfoldable pub diagnose : List ℕ → List ℕ
unfolding splitlines strip within unseen eq_text last_two join
diagnose output =
    let lines = filter (λ l. not (is_empty l)) (map strip (splitlines output)) in
    let interesting = filter (λ l. any (λ m. within m l) markers) lines in
    take 260 (join (unseen [] (if is_empty interesting then last_two lines else interesting)))
