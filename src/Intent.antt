-- ===== src/Intent.antt =====
-- `validate` of minifleet/intent.py: what makes an intent checkable. The values of `limits` are
-- numbers here.
pub mod Checked
pub mod Disjoint
pub mod Prefixes
use minifleet.Prelude.{
  ℕ, String, Bool, true, false, not, ◌&&◌, Option, none, some, List, [], ◌∷◌, ◌++◌, map, ◌==◌,
  if◌then◌else◌, filter, length, eqb, is_empty, contains, dedup, Dict, lookup, insert, keys,
  concat_map,
}
use minifleet.Model.{
  pos, Float, finite, le_float, Value, number, bool, eq_value, AcceptanceCriterion, Component, Gate,
  IntentSpec,
}
use minifleet.Scheduler.Scope.{scopes_overlap}

pub data Flaw : Type 0 where
  no_id no_deliverables no_acceptance no_components duplicate_gates duplicate_components : Flaw
  duplicate_criterion : String → Flaw
  criterion_gate : String → String → Flaw
  budget_text : String → Flaw
  unknown_limit bad_limit : String → Flaw
  undeclared_metric : String → String → Flaw
  other_threshold : String → Flaw
  no_command no_paths no_json_path : String → Flaw
  unknown_component unknown_criterion component_gate : String → String → Flaw
  overlap : String → String → String → Flaw

-- a flaw, if the test holds
abbrev pub flaw_if : Bool → Flaw → List Flaw
flaw_if b f = if b then f ∷ [] else []

-- the names that are not known, each with its flaw
abbrev pub strangers : (String → Flaw) → List String → List String → List Flaw
strangers f known names = map f (filter (λ n. not (contains known n)) names)

-- `len(set(xs)) != len(xs)`
abbrev pub has_duplicates : List String → Bool
has_duplicates xs = not (eqb (length (dedup xs)) (length xs))

abbrev pub is_numeric : Value → Bool
is_numeric (number x) = true
is_numeric (bool b) = true
is_numeric _ = false

abbrev pub gate_ids : IntentSpec → List String
gate_ids spec = map (λ g. g.id) spec.gate_defs

abbrev pub criterion_ids : IntentSpec → List String
criterion_ids spec = map (λ c. c.id) spec.acceptance

abbrev pub component_ids : IntentSpec → List String
component_ids spec = map (λ c. c.id) spec.components

-- the loop over the criteria; `seen` is `seen_criteria`
abbrev pub criterion_flaws : List String → List String → List AcceptanceCriterion → List Flaw
criterion_flaws gates seen [] = []
criterion_flaws gates seen (c ∷ cs) =
    flaw_if (contains seen c.id) (Flaw.duplicate_criterion c.id)
    ++ (strangers (Flaw.criterion_gate c.id) gates c.gates
        ++ criterion_flaws gates (c.id ∷ seen) cs)

abbrev pub limit_names : List String
limit_names = "max_wall_seconds" ∷ "max_attempts" ∷ "max_dispatches" ∷ "max_rounds" ∷ []

abbrev pub limit_flaws : String × Float → List Flaw
limit_flaws (name, value) =
    if not (contains limit_names name)
    then Flaw.unknown_limit name ∷ []
    else flaw_if (le_float value (finite (pos 0))) (Flaw.bad_limit name)

abbrev pub budget_flaws : Gate → Option Value → List Flaw
budget_flaws g none = Flaw.undeclared_metric g.id g.metric ∷ []
budget_flaws g (some value) =
    flaw_if (not (eq_value value (number g.threshold))) (Flaw.other_threshold g.id)

abbrev pub gate_flaws : Dict Value → Gate → List Flaw
gate_flaws budgets g =
    (if g.kind == "budget" then budget_flaws g (lookup g.metric budgets) else [])
    ++ (flaw_if (g.kind == "cmd" && g.cmd == "") (Flaw.no_command g.id)
        ++ (flaw_if (g.kind == "files" && is_empty g.paths) (Flaw.no_paths g.id)
            ++ flaw_if (g.kind == "json" && g.json_path == "") (Flaw.no_json_path g.id)))

abbrev pub component_flaws : List String → List String → List String → Component → List Flaw
component_flaws components criteria gates c =
    strangers (Flaw.unknown_component c.id) components c.depends_on
    ++ (strangers (Flaw.unknown_criterion c.id) criteria c.acceptance_ids
        ++ strangers (Flaw.component_gate c.id) gates c.gate_ids)

-- the paths that the components claim
abbrev pub claimed : IntentSpec → List (String × String)
claimed spec = concat_map (λ c. map (λ p. (p, c.id)) c.owns) spec.components

module _ (fnmatch : String → String → Bool) where
  -- the loop over `owns_seen`
  abbrev pub overlaps : String → String → Dict String → List Flaw
  overlaps path id [] = []
  overlaps path id ((seen, owner) ∷ rest) =
      flaw_if (not (owner == id) && scopes_overlap fnmatch path seen) (Flaw.overlap path seen owner)
      ++ overlaps path id rest

  abbrev pub scope_flaws : Dict String → List (String × String) → List Flaw
  scope_flaws owners [] = []
  scope_flaws owners ((path, id) ∷ rest) =
      overlaps path id owners ++ scope_flaws (insert path id owners) rest

  -- what the parts of `validate` find, in the order of the code
  abbrev pub findings : IntentSpec → List (List Flaw)
  findings spec =
      flaw_if (spec.id == "") Flaw.no_id
      ∷ flaw_if (is_empty spec.deliverables) Flaw.no_deliverables
      ∷ flaw_if (is_empty spec.acceptance) Flaw.no_acceptance
      ∷ flaw_if (is_empty spec.components) Flaw.no_components
      ∷ flaw_if (has_duplicates (gate_ids spec)) Flaw.duplicate_gates
      ∷ criterion_flaws (gate_ids spec) [] spec.acceptance
      ∷ map (λ b. Flaw.budget_text b.0) (filter (λ b. not (is_numeric b.1)) spec.budgets)
      ∷ concat_map limit_flaws spec.limits
      ∷ concat_map (gate_flaws spec.budgets) spec.gate_defs
      ∷ flaw_if (has_duplicates (component_ids spec)) Flaw.duplicate_components
      ∷ concat_map (component_flaws (component_ids spec) (criterion_ids spec) (gate_ids spec))
          spec.components
      ∷ scope_flaws [] (claimed spec)
      ∷ []

  -- The flaws of an intent; it is refused if there are any.
  unfoldable pub validate : IntentSpec → List Flaw
  unfolding scopes_overlap
  validate spec = concat_map (λ l. l) (findings spec)
