-- ===== src/Tests/Intents.antt =====
-- Intents and their traces at the inputs.
use minifleet.Prelude.{
  String, Option, some, none, ◌≡◌, refl, ◌↔◌, inl, inr, true, false, Bool, List, [], ◌∷◌, ◌==◌,
  is_empty, subset, All, is_empty,
}
use minifleet.Model.{Float, AcceptanceCriterion, Component, Evidence}
use minifleet.Gates.Verdicts.{IsGreen}
use minifleet.Scheduler.Scope.{scopes_overlap, rstrip_slash}
use minifleet.Intent.{validate, gate_ids}
use minifleet.Intent.Checked.{IsLinked, validate-IsLinked}
use minifleet.Intent.Disjoint.{validate-Apart}
use minifleet.Traceability.{trace_row, trace_row-verified_iff}
use minifleet.Model.Codec.Intents.{intent_of, intent_fields}
use minifleet.Model.Codec.RoundTrips.{intent_of-intent_fields}
use minifleet.Tests.Data.{sound_intent, component, chain, evidence}

abbrev same_name : String → String → Bool
same_name name pattern = name == pattern

sound_intent-valid : validate same_name sound_intent ≡ []
unfolding validate scopes_overlap rstrip_slash
sound_intent-valid = refl

validate-IsLinked_example :
    All (λ c. subset c.gates (gate_ids sound_intent) ≡ true) sound_intent.acceptance
    × All (IsLinked sound_intent) sound_intent.components
validate-IsLinked_example = validate-IsLinked same_name sound_intent sound_intent-valid

abbrev api : Component
api = component "api" ("api/" ∷ []) ("core" ∷ [])

abbrev core : Component
core = component "core" ("src/core/" ∷ []) []

validate-Apart_example : api.id ≡ api.id
unfolding rstrip_slash
validate-Apart_example =
    validate-Apart same_name sound_intent api api "api/" "api/" "api/v1.py" sound_intent-valid
      (inl refl) (inl refl) (inl refl) (inl refl) (inr refl) (inl (inr refl))

abbrev criterion : AcceptanceCriterion
criterion = record { id = "A1"; statement = "it works"; kind = "functional"; gates = "G-all" ∷ [] }

abbrev seen : List Evidence
seen = evidence "G-all" "fail" ∷ evidence "G-all" "pass" ∷ []

trace_row-verified_iff_example :
    ((trace_row chain seen criterion).status ≡ "verified")
    ↔ ((is_empty criterion.gates ≡ false) × All (IsGreen seen) criterion.gates)
trace_row-verified_iff_example = trace_row-verified_iff chain seen criterion

abbrev no_number : String → Option Float
no_number s = none

intent_of-intent_fields_example :
    intent_of no_number (intent_fields sound_intent) ≡ some (record sound_intent { gate_defs = [] })
intent_of-intent_fields_example = intent_of-intent_fields no_number sound_intent
