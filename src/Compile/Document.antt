-- ===== src/Compile/Document.antt =====
-- `compile_document` of minifleet/compile.py: a text becomes an intent, or is refused.
--
-- `none` is a CompileError, or another exception of the code. The notes are left out, and so is
-- the field `intent`, the text itself, which no dataclass has.
pub mod Dependencies
pub mod Flaws
pub mod Judged
pub mod Numbered
pub mod Refusals
pub mod Settled
use Prim.Native.Char.{code}
use Prim.Native.String.{[] as no_chars, ◌∷◌ as and_char, ◌++◌ as append}
use minifleet.Prelude.{
  ℕ, String, Bool, true, false, not, ◌&&◌, ◌||◌, Option, none, some, List, [], ◌∷◌, ◌++◌, ◌==◌,
  if◌then◌else◌, map, is_empty, eqb, leb, trim, starts_with, subset, Dict, insert,
}
use minifleet.Model.{
  Float, Value, number, text, Fields, get_field, AcceptanceCriterion, Component, Contract, Gate,
  IntentSpec,
}
use minifleet.Model.Codec.{◌>>=◌, gate_of}
use minifleet.Intent.{validate}
use minifleet.Scheduler.Repair.{sorted_set}
use minifleet.Gatelib.{
  Formats, default_unit, default_regression, default_timeout, unit_suite, regression, files_present,
}
use minifleet.Compile.{bullets, before_char, behind_char, build_acceptance}
use minifleet.Compile.Budgets.{parse_budgets, parse_limits}
use minifleet.Compile.Components.{
  Pathlib, split_list, has_text, before_text, strip_prefix, components_from_deliverables,
}
use minifleet.Compile.Gates.{
  parse_probes, parse_harness, policy_gates, project_roots, list_or, harness_part, service_part,
  budget_part, deploy_part,
}
use minifleet.Compile.Names.{text_or_else, slug, contracts_from_sections}
use minifleet.Compile.Sections.{
  Texts, Parse, parse_sections, key_values, lines_at, value_at, value_or, lines_joined,
}

-- `gate["id"]`
abbrev pub id_of_gate : Fields → String
id_of_gate gate = elim (get_field "id" gate) [ some (text s) ↦ s | _ ↦ "" ]

-- `gate["id"]` of every gate
abbrev pub ids_of : List Fields → List String
ids_of gates = map id_of_gate gates

-- the gates read by `Gate.from_dict`
unfoldable pub read_gates : List Fields → Option (List Gate)
read_gates [] = some []
read_gates (gate ∷ gates) = do g ← gate_of gate; gs ← read_gates gates; some (g ∷ gs)

-- the components, bound to the contracts
abbrev pub with_contracts : List Contract → Component → Component
with_contracts contracts c = record c { contract_ids = map (λ k. k.id) contracts }

-- and to every criterion, and to the gate of the workers
abbrev pub bind_component : List AcceptanceCriterion → Component → Component
bind_component acceptance c = record c {
  acceptance_ids = map (λ a. a.id) acceptance;
  gate_ids = "G-unit" ∷ [];
}

abbrev pub value_of : String × (String × Float) → String × Value
value_of (metric, (op, x)) = (metric, number x)

abbrev pub path_of_item : String → String
path_of_item item = trim (before_text " - " item)

-- a test that raises where it fails
abbrev pub require : Bool → Option (Unit {0})
require b = if b then some tt else none

-- the default title of the gate of the files
abbrev pub layout_title : String
layout_title = "deliverables are where the intent says"

-- an intent without its gates, and the gates
abbrev pub Draft : Type 0
Draft = IntentSpec × List Fields

abbrev pub component_ids_of : List Component → List String
component_ids_of components = map (λ c. c.id) components

module _ (texts : Texts) where
  -- the gates but for the last, which has the paths of the deliverables
  unfoldable pub judging_gates :
      Formats
      → Dict String
      → Dict (List String)
      → List String
      → List String
      → String
      → Dict (String × Float)
      → Option (List Fields)
  unfolding key_values parse_harness parse_probes policy_gates split_list bullets
  judging_gates fmt meta sections known roots directory budgets = do
    let harness = parse_harness texts sections known
    let policy =
        policy_gates texts (bullets (lines_at "constraints" sections)) roots
          (split_list (value_at "network_allow" meta)) (split_list (value_at "stdlib_allow" meta))
    deploy ← deploy_part texts fmt (key_values texts (lines_at "deploy" sections))
    some (
        unit_suite default_unit default_timeout
        ∷ (harness_part directory known harness
            ++ (service_part (key_values texts (lines_at "service" sections))
                ++ (policy
                    ++ (regression default_regression default_timeout
                        ∷ (parse_probes sections ++ (deploy ++ budget_part fmt budgets)))))))

  -- the directory of the harness; its later reading, for declared gates, gives the same text
  abbrev pub harness_dir_of : Dict String → Dict (List String) → String
  harness_dir_of meta sections =
      let harness = key_values texts (lines_at "harness" sections) in
      text_or_else (value_at "harness_dir" meta) (value_at "dir" harness)

  -- the intent of the parts, without its gates
  abbrev pub intent_from :
      Parse
      → Dict String
      → List Component
      → Dict (String × Float)
      → List AcceptanceCriterion
      → Dict Float
      → IntentSpec
  intent_from parse meta components budgets acceptance limits =
      let at : String → List String = λ name. bullets (lines_at name parse.sections) in
      let preamble = trim (lines_joined parse.preamble) in
      let contracts = contracts_from_sections parse.sections in
      record {
        id = text_or_else (value_at "id" meta) (slug texts parse.title);
        title = parse.title;
        summary = if preamble == "" then parse.title else before_text "\n\n" preamble;
        stakeholders = split_list (value_at "stakeholders" meta);
        deliverables = at "deliverables";
        acceptance = acceptance;
        constraints = at "constraints";
        budgets = map value_of budgets;
        out_of_scope = list_or (at "out of scope") (at "out-of-scope");
        components = map (λ c. bind_component acceptance (with_contracts contracts c)) components;
        gate_defs = [];
        contracts = contracts;
        harness_dir = harness_dir_of meta parse.sections;
        baseline_from = value_at "baseline_from" meta;
        limits = limits;
      }

module _ (paths : Pathlib) (texts : Texts) (fmt : Formats) where
  -- what the rules make of a text, before `validate_intent`
  unfoldable pub draft_document : String → Option Draft
  unfolding parse_sections key_values bullets components_from_deliverables parse_budgets
      judging_gates build_acceptance parse_limits trim
  draft_document document = do
    let parse = parse_sections texts document
    let sections = parse.sections
    let meta = key_values texts (lines_at "meta" sections)
    let deliverables = bullets (lines_at "deliverables" sections)
    _ ← require (not (parse.title == "") && not (is_empty deliverables))
    (components, dependencies) ← components_from_deliverables paths deliverables
    let known = component_ids_of components
    _ ← require (subset dependencies known)
    budgets ← parse_budgets texts sections
    let roots = project_roots paths components
    let directory = harness_dir_of texts meta sections
    gates ← judging_gates texts fmt meta sections (sorted_set known) roots directory budgets
    acceptance ← build_acceptance paths.decimal (ids_of gates) (lines_at "acceptance" sections)
    limits ← parse_limits texts meta
    some (
      intent_from texts parse meta components budgets acceptance limits,
      gates ++ files_present (map path_of_item deliverables) layout_title ∷ [],
    )

  -- the draft with its gates, if `validate` finds no flaw
  unfoldable pub compile_document : (String → String → Bool) → String → Option IntentSpec
  unfolding draft_document read_gates
  compile_document fnmatch document = do
    (spec, gates) ← draft_document document
    gate_defs ← read_gates gates
    let read : IntentSpec = record spec { gate_defs = gate_defs }
    _ ← require (is_empty (validate fnmatch read))
    some read
