-- ===== src/Compile.antt =====
-- minifleet/compile.py: what the rules derive from the lines of a document.
--
-- `none` is a CompileError. The decimal text of a number is an argument, and the notes of the
-- compiler are left out. Set comprehensions over gate ids are lists, since the code sorts them.
pub mod Bound
pub mod Budgets
pub mod Components
pub mod Document
pub mod Gates
pub mod Names
pub mod Owned
pub mod Refiner
pub mod Sections
use Prim.Native.Char.{Char, code}
use Prim.Native.String.{[] as no_chars, ◌∷◌ as and_char, ◌++◌ as append}
use minifleet.Prelude.{
  ℕ, suc, String, Bool, true, false, not, ◌&&◌, ◌||◌, Option, none, some, List, [], ◌∷◌, ◌++◌, ◌==◌,
  if◌then◌else◌, filter, any, contains, is_empty, eqb, leb, is_space, trim, starts_with, Dict,
  insert, lookup,
}
use minifleet.Model.{AcceptanceCriterion}
use minifleet.Scheduler.Repair.{sorted_set}
use minifleet.Workers.{after_colon}
use minifleet.Gatelib.{dashed}

-- what stands behind a bullet: BULLET_RE on a stripped line
unfoldable pub bullet : String → Option String
unfolding trim
bullet (and_char b (and_char c s)) =
    if (eqb (code b) b'-' || eqb (code b) b'*') && is_space (code c) then some (trim s) else none
bullet s = none

unfoldable pub bullets : List String → List String
unfolding bullet
bullets [] = []
bullets (line ∷ lines) =
    let rest = bullets lines in elim (bullet (trim line)) [ none ↦ rest | some item ↦ item ∷ rest ]

-- what stands before the first separator, and behind it: `s.partition(sep)` for one character
unfoldable pub before_char : ℕ → String → String
before_char sep no_chars = no_chars
before_char sep (and_char c s) =
    let rest = before_char sep s in if eqb (code c) sep then no_chars else and_char c rest

unfoldable pub behind_char : ℕ → String → String
behind_char sep no_chars = no_chars
behind_char sep (and_char c s) =
    let rest = behind_char sep s in if eqb (code c) sep then s else rest

abbrev pub is_tag_char : ℕ → Bool
is_tag_char c = leb b'a' c && leb c b'z' || eqb c b':' || eqb c b'-'

-- the tag up to its bracket, and what stands behind it
unfoldable pub tag_span : String → Option (String × String)
tag_span no_chars = none
tag_span (and_char c s) =
    let rest = tag_span s in
    if eqb (code c) b']' then some (no_chars, s) else elim rest [
      | none ↦ none
      | some (tag, behind) ↦ if is_tag_char (code c) then some (and_char c tag, behind) else none
    ]

-- TAG_RE, with the statement stripped; a tag has at least one character
unfoldable pub read_tag : String → Option (String × String)
unfolding tag_span trim
read_tag no_chars = none
read_tag (and_char c s) =
    let open_bracket = eqb (code c) b'[' in
    elim (tag_span s) [
      | none ↦ none
      | some (tag, behind) ↦
          if open_bracket && not (tag == "") then some (tag, trim behind) else none
    ]

abbrev pub is_harness_gate : String → Bool
is_harness_gate id = id == "G-harness" || starts_with id "G-harness-"

abbrev pub harness_gates : List String → List String
harness_gates gate_ids = sorted_set (filter is_harness_gate gate_ids)

abbrev pub budget_gates : List String → List String
budget_gates gate_ids = sorted_set (filter (λ id. starts_with id "G-budget-") gate_ids)

-- `tag_to_gate.get(tag, "")`
abbrev pub gate_for : String → String
gate_for tag =
    if tag == "regression"
    then "G-regression"
    else if tag == "unit"
    then "G-unit"
    else if tag == "policy"
    then "G-stdlib-only"
    else if tag == "service"
    then "G-service"
    else if tag == "deploy"
    then "G-deploy"
    else ""

abbrev pub if_known : List String → String → List String
if_known gate_ids id = if contains gate_ids id then id ∷ [] else []

-- the gates that a tag names
unfoldable pub tagged_gates : List String → String → List String
unfolding dashed after_colon trim
tagged_gates gate_ids tag =
    if tag == "harness"
    then harness_gates gate_ids
    else if starts_with tag "harness:"
    then if_known gate_ids (append "G-harness-" (dashed (trim (after_colon tag))))
    else if_known gate_ids (gate_for tag)

unfoldable pub untagged_gates : List String → List String
untagged_gates gate_ids =
    if is_empty (harness_gates gate_ids) then "G-regression" ∷ [] else harness_gates gate_ids

-- a deployment is judged by every budget, too
abbrev pub with_budgets : List String → List String → List String
with_budgets gate_ids [] = []
with_budgets gate_ids (id ∷ ids) =
    if id == "G-deploy" then (id ∷ ids) ++ budget_gates gate_ids else id ∷ ids

abbrev pub is_deployment : List String → Bool
is_deployment [] = false
is_deployment (id ∷ ids) = id == "G-deploy"

abbrev pub kind_of : List String → String
kind_of gates =
    if any (λ g. starts_with g "G-budget") gates || is_deployment gates then "nfr" else "functional"

-- the statement of an item, and the gates before the budgets are added
unfoldable pub bind_item : List String → String → Option (String × List String)
unfolding read_tag tagged_gates untagged_gates trim
bind_item gate_ids item = elim (read_tag item) [
  | none ↦ some (trim item, untagged_gates gate_ids)
  | some (tag, statement) ↦
      if is_empty (tagged_gates gate_ids tag)
      then none
      else some (statement, tagged_gates gate_ids tag)
]

-- an intent needs at least one criterion
abbrev pub unless_empty : Option (List AcceptanceCriterion) → Option (List AcceptanceCriterion)
unless_empty none = none
unless_empty (some []) = none
unless_empty (some (c ∷ cs)) = some (c ∷ cs)

module _ (decimal : ℕ → String) where
  abbrev pub criterion : ℕ → String → List String → AcceptanceCriterion
  criterion index statement gates = record {
    id = append "A-" (decimal index);
    statement = statement;
    kind = kind_of gates;
    gates = gates;
  }

  -- the loop over the items, numbered from `index`
  unfoldable pub criteria_from : List String → ℕ → List String → Option (List AcceptanceCriterion)
  unfolding bind_item
  criteria_from gate_ids index [] = some []
  criteria_from gate_ids index (item ∷ items) =
      let rest = criteria_from gate_ids (suc index) items in
      elim (bind_item gate_ids item) [
        | none ↦ none
        | some (statement, gates) ↦ elim rest [
          | none ↦ none
          | some cs ↦ some (criterion index statement (with_budgets gate_ids gates) ∷ cs)
        ]
      ]

  unfoldable pub build_acceptance : List String → List String → Option (List AcceptanceCriterion)
  unfolding criteria_from bullets
  build_acceptance gate_ids lines = unless_empty (criteria_from gate_ids 1 (bullets lines))
