-- ===== src/Architect/Review/Promises.antt =====
-- What a design that passes the review promises.
use minifleet.Architect.Review.Waiting.{Waits, break_cycles-Waits, known_only-Waits, drafted-Waits}
use minifleet.Prelude.{
  String, ◌≡◌, ap, true, false, Option, some, List, [], ◌∷◌, is_empty, contains, subset, All, Has,
  map, All-both,
}
use mathlib.Core.Path.{subst}
use minifleet.Model.{AcceptanceCriterion, Contract, IntentSpec, Task, Design}
use minifleet.Architect.Graph.{find_cycles}
use minifleet.Architect.Batches.{ids, waves, topological_batches}
use minifleet.Architect.Batches.Waves.{IsClosed, topological_batches_acyclic}
use minifleet.Architect.Repairs.{
  probed, repair, add_probes, assign_scopes, break_cycle, break_cycles, drop_unknown, known_only,
}
use minifleet.Architect.Review.{gate_ids_of, check, ok, contracts_for, draft, design, claims}
use minifleet.Architect.Review.Parts.{
  Approved, check-Approved, shared-single, claims-Has, reviewed-eq-ok, drop_unknown-IsClosed,
  All-probed, Writes, All-scoped, break_cycle-Writes,
}

break_cycles-Writes :
    (plan : Design) (cycles : List (List String))
    → All Writes plan.tasks
    → All Writes (break_cycles plan cycles).tasks
unfolding break_cycles
break_cycles-Writes plan [] h = h
break_cycles-Writes plan (c ∷ cs) h =
    break_cycles-Writes (break_cycle plan c) cs (break_cycle-Writes plan c h)

drop_unknown-Writes : (plan : Design) → All Writes plan.tasks → All Writes (drop_unknown plan).tasks
unfolding drop_unknown
drop_unknown-Writes plan h = All-map_known plan.tasks h
  where
    All-map_known :
        (ts : List Task) → All Writes ts → All Writes (map (known_only (ids plan.tasks)) ts)
    All-map_known [] k = tt
    All-map_known (t ∷ ts) k = (k.0, All-map_known ts k.1)

module _ (factory : Option (IntentSpec → List Contract)) (spec : IntentSpec) where
  -- the plan before the third part of `repair`, and before the last
  abbrev with_scopes : Design
  with_scopes = assign_scopes (add_probes spec.acceptance (draft (contracts_for factory spec) spec))

  abbrev without_cycles : Design
  without_cycles = break_cycles with_scopes (find_cycles with_scopes.tasks)

  without_cycles-Writes : All Writes without_cycles.tasks
  unfolding assign_scopes
  without_cycles-Writes =
      break_cycles-Writes with_scopes (find_cycles with_scopes.tasks) (All-scoped _)

-- an admitted design is the repaired draft, and its check was silent
record Admitted (factory : Option (IntentSpec → List Contract)) (spec : IntentSpec) (plan : Design)
    (spec' : IntentSpec) : Type 0 where
  is_plan : drop_unknown (without_cycles factory spec) ≡ plan
  is_acceptance : map probed spec.acceptance ≡ spec'.acceptance
  approved : Approved plan spec'.acceptance

module _ (factory : Option (IntentSpec → List Contract)) (spec : IntentSpec) {plan : Design}
    {spec' : IntentSpec} (h : design factory spec ≡ ok plan spec') where
  design-Admitted : Admitted factory spec plan spec'
  unfolding design repair
  design-Admitted =
      let r = repair (draft (contracts_for factory spec) spec) spec.acceptance in
      let (silent, same, spec_same) =
        reviewed-eq-ok r.0 (record spec { acceptance = r.1 }) (check r.0 r.1) h in
      let acceptance = ap (λ (s : IntentSpec). s.acceptance) spec_same in
      record {
        is_plan = same;
        is_acceptance = acceptance;
        approved =
            subst (λ c. Approved plan c) acceptance
              (subst (λ p. Approved p r.1) same (check-Approved r.0 r.1 silent));
      }

  -- An admitted design can be executed: the waves of its tasks can be planned.
  pub design_executable :
      (ws : List (List Task)) × (topological_batches plan.tasks ≡ some (waves ws))
  design_executable =
      let a = design-Admitted in
      topological_batches_acyclic plan.tasks
        (subst (λ (p : Design). IsClosed p.tasks) a.is_plan
          (drop_unknown-IsClosed (without_cycles factory spec)))
        a.approved.acyclic

  -- In an admitted design each criterion names a gate, and each gate that it names is declared.
  pub design_covers :
      All
        (λ c. (is_empty c.gates ≡ false) × (subset c.gates (gate_ids_of plan) ≡ true))
        spec'.acceptance
  design_covers =
      let a = design-Admitted in
      All-both (λ (c : AcceptanceCriterion). is_empty c.gates ≡ false)
        (λ c. subset c.gates (gate_ids_of plan) ≡ true) spec'.acceptance
        (subst (λ l. All (λ (c : AcceptanceCriterion). is_empty c.gates ≡ false) l) a.is_acceptance
          (All-probed spec.acceptance))
        a.approved.covered

  -- In an admitted design each task has a path to write to.
  pub design_scoped : All (λ t. is_empty t.owns ≡ false) plan.tasks
  design_scoped =
      subst (λ (p : Design). All Writes p.tasks) design-Admitted.is_plan
        (drop_unknown-Writes (without_cycles factory spec) (without_cycles-Writes factory spec))

  -- Two tasks of an admitted design that list the same text in their write scopes have the same id.
  pub design_single_writer :
      (path : String) (t u : Task)
      → Has t plan.tasks
      → Has u plan.tasks
      → contains t.owns path ≡ true
      → contains u.owns path ≡ true
      → t.id ≡ u.id
  design_single_writer path t u m n owned owned' =
      shared-single [] (claims plan.tasks) path t.id u.id design-Admitted.approved.disjoint
        (claims-Has t plan.tasks path m owned) (claims-Has u plan.tasks path n owned')

  -- No task of an admitted design is verified or merged.
  pub design-Waits : All Waits plan.tasks
  unfolding assign_scopes draft drop_unknown add_probes
  design-Waits =
      subst (λ (p : Design). All Waits p.tasks) design-Admitted.is_plan
        (known_only-Waits _ _ (
          break_cycles-Waits (with_scopes factory spec)
            (find_cycles (with_scopes factory spec).tasks) (drafted-Waits spec.components)))
