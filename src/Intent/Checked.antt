-- ===== src/Intent/Checked.antt =====
-- What an intent promises that `validate` of minifleet/intent.py lets pass.
use minifleet.Prelude.{
  map-nil, String, ◌≡◌, refl, Bool, true, false, not, List, [], ◌∷◌, filter, contains, subset, All,
  All-mono, append-nil, All-of_concat_map-nil, All-of_filter-nil, arith,
}
use minifleet.Model.{AcceptanceCriterion, Component, IntentSpec}
use minifleet.Intent.{
  Flaw, validate, findings, strangers, criterion_flaws, component_flaws, gate_ids, criterion_ids,
  component_ids,
}

subset_of_All :
    (known names : List String)
    → All (λ n. not (contains known n) ≡ false) names
    → subset names known ≡ true
subset_of_All known [] h = refl
subset_of_All known (n ∷ ns) h = ground (arith, subset_of_All known ns h.1)

strangers-nil :
    (f : String → Flaw) (known names : List String)
    → strangers f known names ≡ []
    → subset names known ≡ true
strangers-nil f known names h = subset_of_All known names (
    All-of_filter-nil (λ n. not (contains known n)) names
      (map-nil f (filter (λ n. not (contains known n)) names) h))

criterion_flaws-nil :
    (gates seen : List String) (cs : List AcceptanceCriterion)
    → criterion_flaws gates seen cs ≡ []
    → All (λ c. subset c.gates gates ≡ true) cs
criterion_flaws-nil gates seen [] h = tt
criterion_flaws-nil gates seen (c ∷ cs) h =
    let (a, b) = append-nil _ _ h in
    let (k, rest) = append-nil (strangers (Flaw.criterion_gate c.id) gates c.gates) _ b in
    (
      strangers-nil (Flaw.criterion_gate c.id) gates c.gates k,
      criterion_flaws-nil gates (c.id ∷ seen) cs rest,
    )

-- The names that a component uses are declared.
abbrev pub IsLinked : IntentSpec → Component → Type 0
IsLinked spec c =
    (subset c.depends_on (component_ids spec) ≡ true)
    × (subset c.acceptance_ids (criterion_ids spec) ≡ true)
    × (subset c.gate_ids (gate_ids spec) ≡ true)

component_flaws-nil :
    (spec : IntentSpec) (c : Component)
    → component_flaws (component_ids spec) (criterion_ids spec) (gate_ids spec) c ≡ []
    → IsLinked spec c
component_flaws-nil spec c h =
    let (a, b) =
      append-nil (strangers (Flaw.unknown_component c.id) (component_ids spec) c.depends_on) _ h in
    let (d, e) =
      append-nil (strangers (Flaw.unknown_criterion c.id) (criterion_ids spec) c.acceptance_ids) _
        b in
    (
      strangers-nil (Flaw.unknown_component c.id) (component_ids spec) c.depends_on a,
      strangers-nil (Flaw.unknown_criterion c.id) (criterion_ids spec) c.acceptance_ids d,
      strangers-nil (Flaw.component_gate c.id) (gate_ids spec) c.gate_ids e,
    )

-- An intent without flaws names only what it declares: its criteria name declared gates, and its
-- components depend on declared components and claim declared criteria and gates.
pub validate-IsLinked :
    (fnmatch : String → String → Bool) (spec : IntentSpec)
    → validate fnmatch spec ≡ []
    → All (λ c. subset c.gates (gate_ids spec) ≡ true) spec.acceptance
      × All (IsLinked spec) spec.components
unfolding validate
validate-IsLinked fnmatch spec h =
    let silent = All-of_concat_map-nil (λ (l : List Flaw). l) (findings fnmatch spec) h in
    (
      criterion_flaws-nil (gate_ids spec) [] spec.acceptance silent.1.1.1.1.1.0,
      All-mono spec.components (component_flaws-nil spec) (
          All-of_concat_map-nil
            (component_flaws (component_ids spec) (criterion_ids spec) (gate_ids spec))
            spec.components silent.1.1.1.1.1.1.1.1.1.1.0),
    )
