-- ===== src/Tests/Documents.antt =====
-- The compiler of documents and its gate templates, at the inputs.
use minifleet.Prelude.{
  ℕ, suc, String, ◌≡◌, refl, ◌==◌, if◌then◌else◌, Bool, true, false, Option, none, some, List, [],
  ◌∷◌, map, trim, sort_by, str_le,
}
use minifleet.Model.{AcceptanceCriterion, Component}
use minifleet.Workers.{after_colon}
use minifleet.Gatelib.{dashed}
use minifleet.Compile.{
  bullet, bullets, tag_span, read_tag, tagged_gates, untagged_gates, bind_item, criteria_from,
  build_acceptance,
}
use minifleet.Compile.Components.{
  Pathlib, Deliverable, deliverable, has_text, before_text, behind_text, split_list, add_modules,
  add_tests, attach_all, components_from,
}
use minifleet.Compile.Owned.{count, owned, paths_of, components_from-count}

abbrev lines : List String
lines = "" ∷ "- [regression] the suite passes" ∷ "* it is told" ∷ []

abbrev gates : List String
gates = "G-regression" ∷ "G-harness-api" ∷ []

abbrev decimal : ℕ → String
decimal n = if◌then◌else◌ (is_one n) "1" "2"
  where
    is_one : ℕ → Bool
    is_one (suc ℕ.zero) = true
    is_one n = false

program : Unit {0}
unfolding bullet bullets tag_span read_tag tagged_gates untagged_gates bind_item criteria_from
    build_acceptance after_colon dashed trim sort_by str_le deliverable has_text before_text
    behind_text split_list add_modules add_tests attach_all components_from
program = tt

abbrev criteria : List AcceptanceCriterion
criteria =
    record {
      id = "A-1";
      statement = "the suite passes";
      kind = "functional";
      gates = "G-regression" ∷ [];
    }
    ∷ record {
      id = "A-2";
      statement = "it is told";
      kind = "functional";
      gates = "G-harness-api" ∷ [];
    }
    ∷ []

acceptance-built : build_acceptance decimal gates lines ≡ some criteria
unfolding program
acceptance-built = refl

abbrev pathlib : Pathlib
pathlib = record {
  stem = λ p. if p == "tests/test_store" then "test_store" else p;
  name = λ p. p;
  parent_name = λ p. "";
  capitalize = λ s. s;
  decimal = decimal;
  first_part = λ p. some p;
}

abbrev deliverables : List Deliverable
deliverables = map deliverable (
    "store - the table" ∷ "api - the surface | depends: store" ∷ "docs - a guide | of: api"
    ∷ "tests/test_store - its tests" ∷ [])

abbrev components_of : Option (List Component) → List Component
components_of none = []
components_of (some cs) = cs

abbrev built : List Component
built = components_of (components_from pathlib deliverables)

components-built : components_from pathlib deliverables ≡ some built
unfolding program
components-built = refl

scopes-built :
    map (λ c. c.owns) built ≡ ("store" ∷ "tests/test_store" ∷ []) ∷ ("api" ∷ "docs" ∷ []) ∷ []
unfolding program
scopes-built = refl

components_from-count_example : count "docs" (owned built) ≡ count "docs" (paths_of deliverables)
components_from-count_example =
    components_from-count pathlib deliverables built components-built "docs"
