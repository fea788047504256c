-- ===== src/Compile/Budgets.antt =====
-- The numbers of a document: `parse_budgets` and `parse_limits` of minifleet/compile.py.
--
-- `none` is the exception of a text that is no number.
pub mod Numbers
use Prim.Native.Char.{code}
use Prim.Native.String.{[] as no_chars, ◌∷◌ as and_char}
use minifleet.Prelude.{
  ℕ, String, Bool, true, false, not, ◌&&◌, ◌||◌, Option, none, some, List, [], ◌∷◌, ◌++◌, ◌==◌,
  if◌then◌else◌, is_empty, eqb, leb, trim, starts_with, contains, keys, Dict, lookup, insert,
}
use minifleet.Model.{pos, Float}
use minifleet.Model.Codec.{whole}
use minifleet.Intent.{limit_names}
use minifleet.Compile.{bullets, before_char, behind_char}
use minifleet.Compile.Components.{has_text, strip_prefix}
use minifleet.Compile.Sections.{Texts, lines_at}

abbrev is_letter : ℕ → Bool
is_letter c = leb b'A' c && leb c b'Z' || leb b'a' c && leb c b'z' || eqb c b'_'

abbrev is_word : ℕ → Bool
is_word c = is_letter c || leb b'0' c && leb c b'9'

-- the characters of a name at the start, and what stands behind them
abbrev word_span : String → String × String
word_span no_chars = ("", "")
word_span (and_char c s) =
    let (word, rest) = word_span s in
    if is_word (code c) then (and_char c word, rest) else ("", and_char c s)

abbrev is_name : String → Bool
is_name no_chars = false
is_name (and_char c s) = is_letter (code c)

-- the operator at the start, and what stands behind it
unfoldable pub read_op : String → Option (String × String)
read_op s =
    if starts_with s "<="
    then some ("<=", strip_prefix "<=" s)
    else if starts_with s ">="
    then some (">=", strip_prefix ">=" s)
    else if starts_with s "<"
    then some ("<", strip_prefix "<" s)
    else if starts_with s ">"
    then some (">", strip_prefix ">" s)
    else if starts_with s "=="
    then some ("==", strip_prefix "==" s)
    else none

module _ (texts : Texts) where
  abbrev are_digits : String → Bool
  are_digits no_chars = true
  are_digits (and_char c s) = texts.is_digit (code c) && are_digits s

  abbrev is_whole : String → Bool
  is_whole s = not (s == "") && are_digits s

  -- `-?\d+(?:\.\d+)?`
  unfoldable pub is_decimal : String → Bool
  unfolding has_text before_char behind_char
  is_decimal s =
      let plain = if starts_with s "-" then strip_prefix "-" s else s in
      if has_text "." plain
      then is_whole (before_char b'.' plain) && is_whole (behind_char b'.' plain)
      else is_whole plain

  -- METRIC_RE: the metric, the operator and the text of the number
  unfoldable pub read_metric : String → Option (String × String × String)
  unfolding read_op is_decimal trim
  read_metric item =
      let (word, rest) = word_span item in
      elim (if is_name word then read_op (trim rest) else none) [
        | none ↦ none
        | some (op, behind) ↦
            if is_decimal (trim behind) then some (word, op, trim behind) else none
      ]

  -- the loop over the items; a line that does not match is left out
  unfoldable pub budgets_from : List String → Dict (String × Float) → Option (Dict (String × Float))
  unfolding read_metric
  budgets_from [] d = some d
  budgets_from (item ∷ items) d = elim (read_metric item) [
    | none ↦ budgets_from items d
    | some (metric, op, digits) ↦ elim (texts.to_float digits) [
      | none ↦ none
      | some x ↦ budgets_from items (insert metric (op, x) d)
    ]
  ]

  unfoldable pub parse_budgets : Dict (List String) → Option (Dict (String × Float))
  unfolding budgets_from bullets
  parse_budgets sections = budgets_from (bullets (lines_at "budgets" sections)) []

  abbrev pub limits_from : List String → Dict String → Dict Float → Option (Dict Float)
  limits_from [] meta d = some d
  limits_from (name ∷ names) meta d = elim (lookup name meta) [
    | none ↦ limits_from names meta d
    | some digits ↦ elim (texts.to_float digits) [
      | none ↦ none
      | some x ↦ limits_from names meta (insert name x d)
    ]
  ]

  -- three attempts, where there are limits and none on the attempts
  abbrev pub with_attempts : Dict Float → Dict Float
  with_attempts d =
      if not (is_empty d) && not (contains (keys d) "max_attempts")
      then insert "max_attempts" (whole (pos 3)) d
      else d

  unfoldable pub parse_limits : Dict String → Option (Dict Float)
  parse_limits meta = elim (limits_from limit_names meta []) [
    | none ↦ none
    | some d ↦ some (with_attempts d)
  ]
