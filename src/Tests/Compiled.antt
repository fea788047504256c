-- ===== src/Tests/Compiled.antt =====
-- A document, and what minifleet/compile.py makes of it.
use Prim.Native.String.{◌∷◌ as and_char}
use minifleet.Prelude.{
  ap, zero, suc, ℕ, String, ◌≡◌, refl, subst, inl, inr, Bool, true, Option, none, some, List, [],
  ◌∷◌, ◌==◌, map, if◌then◌else◌, All, trim, sort_by, str_le, Bool-cases, arith,
}
use minifleet.Model.{pos, Float, finite, eq_float, eq_value, Gate, IntentSpec}
use minifleet.Model.Codec.{gate_of, gate_payload, texts_of}
use minifleet.Gatelib.{Formats, dashed, spaced}
use minifleet.Intent.{validate}
use minifleet.Scheduler.Scope.{scopes_overlap, rstrip_slash}
use minifleet.Workers.{Endpoint, after_colon}
use minifleet.Compile.{
  bullet, bullets, before_char, behind_char, tag_span, read_tag, tagged_gates, untagged_gates,
  bind_item, criteria_from, build_acceptance,
}
use minifleet.Compile.Budgets.{
  read_op, is_decimal, read_metric, budgets_from, parse_budgets, parse_limits,
}
use minifleet.Compile.Budgets.Numbers.{IsExact}
use minifleet.Compile.Components.{
  Pathlib, deliverable, has_text, before_text, behind_text, split_list, add_modules, add_tests,
  attach_all, components_from, components_from_deliverables,
}
use minifleet.Compile.Document.{
  Draft, ids_of, read_gates, judging_gates, draft_document, compile_document,
}
use minifleet.Tests.Data.{sound_intent}
use minifleet.Compile.Document.Flaws.{CanArise}
use minifleet.Compile.Document.Numbered.{IsDistinct}
use minifleet.Compile.Document.Refusals.{draft_document-CanArise}
use minifleet.Compile.Gates.{
  parse_probes, harness_gate, declared_harness, is_standard, is_offline, parse_harness,
  policy_gates,
}
use minifleet.Compile.Refiner.{Model, refine, compile_text}
use minifleet.Compile.Names.{slug_words, slug, contracts_from_sections}
use minifleet.Compile.Sections.{
  Texts, title_of, section_of, lines_joined, parse_line, parse_lines, parse_sections, key_values,
}

abbrev fifty : String → Option Float
fifty s = if s == "50" then some (finite (pos 50)) else none

abbrev reading : Texts
reading = record { lower = λ s. s; to_float = fifty; is_digit = λ c. true }

reading-IsExact : IsExact reading
reading-IsExact s x h e = elim (Bool-cases (s == "50")) [
  | inl n ↦
      let same : some (finite (pos 50)) ≡ some x = rw n at e in
      let value : finite (pos 50) ≡ x = cc in subst (λ y. eq_float y y ≡ true) value refl
  | inr n ↦ let never : none ≡ some x = rw n at e in absurd (ground (arith, never))
]

abbrev formats : Formats
formats = record { short = λ x. "50"; plain = λ x. "50.0" }

-- a number as marks
abbrev marks : ℕ → String
marks zero = ""
marks (suc n) = and_char "|" (marks n)

marks-IsDistinct : IsDistinct marks
marks-IsDistinct zero zero e = refl
marks-IsDistinct zero (suc n) e = cc
marks-IsDistinct (suc m) zero e = cc
marks-IsDistinct (suc m) (suc n) e =
    let rest : marks m ≡ marks n = cc in ap suc (marks-IsDistinct m n rest)

abbrev pathlib : Pathlib
pathlib = record {
  stem = λ p. p;
  name = λ p. p;
  parent_name = λ p. "";
  capitalize = λ s. s;
  decimal = marks;
  first_part = λ p. some p;
}

abbrev document : String
document = lines_joined (
    "# Links: short" ∷ "" ∷ "A table." ∷ "## deliverables" ∷ "- store - the table"
    ∷ "- api - the surface | depends: store" ∷ "## constraints" ∷ "- no network" ∷ "## harness"
    ∷ "- dir: frozen" ∷ "- modules: api" ∷ "## budgets" ∷ "- p50_ms <= 50" ∷ "## probes"
    ∷ "- p50_ms: python3 bench" ∷ "## acceptance" ∷ "- [regression] the suite passes"
    ∷ "- it is told" ∷ [])

program : Unit {0}
unfolding title_of section_of lines_joined parse_line parse_lines parse_sections key_values bullet
    bullets before_char behind_char tag_span read_tag tagged_gates untagged_gates bind_item
    criteria_from build_acceptance read_op is_decimal read_metric budgets_from parse_budgets
    parse_limits deliverable has_text before_text behind_text split_list add_modules add_tests
    attach_all components_from components_from_deliverables contracts_from_sections slug_words slug
    judging_gates draft_document compile_document parse_probes harness_gate declared_harness
    is_standard is_offline parse_harness policy_gates read_gates gate_of gate_payload texts_of trim
    dashed spaced sort_by str_le after_colon validate eq_value scopes_overlap rstrip_slash
program = tt

abbrev first_draft : Option Draft
first_draft = draft_document pathlib reading formats document

-- the draft, or an intent of the other tests
abbrev made_of : Option Draft → Draft
made_of none = (sound_intent, [])
made_of (some d) = d

abbrev made : Draft
made = made_of first_draft

draft-made : first_draft ≡ some (made.0, made.1)
unfolding program
draft-made = refl

ids-made :
    ids_of made.1
    ≡ "G-unit" ∷ "G-harness-api" ∷ "G-no-network" ∷ "G-regression" ∷ "G-probe-p50-ms"
      ∷ "G-budget-p50-ms" ∷ "G-layout" ∷ []
unfolding program
ids-made = refl

abbrev same_name : String → String → Bool
same_name name pattern = name == pattern

abbrev bound_in : Option IntentSpec → List (String × List String)
bound_in none = []
bound_in (some spec) = map (λ c. (c.id, c.gates)) spec.acceptance

criteria-compiled :
    bound_in (compile_document pathlib reading formats same_name document)
    ≡ ("A-|", "G-regression" ∷ []) ∷ ("A-||", "G-harness-api" ∷ []) ∷ []
unfolding program
criteria-compiled = refl

-- a model that is silent
abbrev silent : Model
silent = record { ask = λ e draft text. none; loads = λ s. none }

abbrev endpoint : Endpoint
endpoint = record { base_url = "http://localhost"; api_key = "k"; model = "m" }

silent-refused :
    compile_text same_name reading pathlib formats silent endpoint "llm" document ≡ none
unfolding program compile_text refine
silent-refused = refl

draft_document-CanArise_example :
    (gs : List Gate) × (read_gates made.1 ≡ some gs)
    × All CanArise (validate same_name (record made.0 { gate_defs = gs }))
draft_document-CanArise_example =
    draft_document-CanArise pathlib reading formats same_name document made.0 made.1 reading-IsExact
      marks-IsDistinct draft-made
