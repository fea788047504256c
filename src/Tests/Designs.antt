-- ===== src/Tests/Designs.antt =====
-- The architect at the inputs.
use minifleet.Prelude.{
  String, ◌≡◌, refl, ◌↔◌, true, false, List, [], ◌∷◌, none, some, Option, map, Has, All, contains,
  inl, ◌⊎◌,
}
use minifleet.Model.{TaskState, IntentSpec, Task, Design}
use minifleet.Architect.Graph.{
  Dfs, graph, add_tasks, search_graph, visit, roots, scan, follow, names, find_cycles,
}
use minifleet.Architect.Cycles.Keeps.{Grounded}
use minifleet.Architect.Cycles.Total.{search_graph_total}
use minifleet.Architect.Cycles.Acyclic.{find_cycles-nil_iff}
use minifleet.Architect.Batches.{waves, topological_batches, batches, add_by_id, due, without, ids}
use minifleet.Architect.Batches.Order.{IsOrdered, planned}
use minifleet.Architect.Batches.Waves.{topological_batches_plan, topological_batches_acyclic}
use minifleet.Architect.Repairs.{
  repair, add_probes, probe_gate, assign_scopes, break_cycles, break_cycle, drop_unknown,
}
use minifleet.Architect.Review.{ok, design, draft, task_for, risks, check}
use minifleet.Architect.Review.Promises.{design_executable, design_single_writer}
use minifleet.Prelude.{sort_by, str_le}
use minifleet.Scheduler.State.{Fleet, is}
use minifleet.Scheduler.Steps.Tasks.{IsSound, is_done}
use minifleet.Scheduler.Steps.Calls.{Call, perform_all}
use minifleet.Scheduler.Steps.Whole.{design-perform_all-IsSound}
use minifleet.Scheduler.Wave.{refresh, refresh_tasks}
use minifleet.Scheduler.Integrate.{merged}
use minifleet.Command.Evolve.{evolve, adopt, changed_from, differs, carry_all, component_ids}
use minifleet.Command.Evolve.Kept.{IsCarried, evolve-IsOld}
use minifleet.Tests.Data.{component, site, fleet, intent, plan_of, spec_of, task, chain, ring}

program : Unit {0}
unfolding sort_by str_le design draft task_for risks repair add_probes probe_gate assign_scopes
    break_cycles break_cycle drop_unknown check find_cycles search_graph graph add_tasks visit roots
    scan follow names topological_batches batches add_by_id due without evolve adopt changed_from
    differs carry_all refresh refresh_tasks
program = tt

abbrev plan : Design
plan = plan_of (design none intent)

intent-ok : design none intent ≡ ok plan (spec_of (design none intent))
unfolding program
intent-ok = refl

chain-acyclic : find_cycles chain ≡ []
unfolding program
chain-acyclic = refl

ring-cycle : find_cycles ring ≡ ("core" ∷ "api" ∷ []) ∷ []
unfolding program
ring-cycle = refl

design_executable_example :
    (ws : List (List Task)) × (topological_batches plan.tasks ≡ some (waves ws))
design_executable_example = design_executable none intent intent-ok

abbrev first_task : Task
first_task = elim plan.tasks [ [] ↦ task "" [] [] | t ∷ ts ↦ t ]

first-Has : Has first_task plan.tasks
unfolding program
first-Has = inl refl

first-owns : contains first_task.owns "docs/api.md" ≡ true
unfolding program
first-owns = refl

design_single_writer_example : first_task.id ≡ first_task.id
design_single_writer_example =
    design_single_writer none intent intent-ok "docs/api.md" first_task first_task first-Has
      first-Has first-owns first-owns

find_cycles-nil_iff_example : (find_cycles chain ≡ []) ↔ ((n : String) → Grounded (graph chain) n)
find_cycles-nil_iff_example = find_cycles-nil_iff chain

search_graph_total_example : (s : Dfs) × (search_graph (graph ring) ≡ some s)
search_graph_total_example = search_graph_total (graph ring)

abbrev chain_waves : List (List Task)
chain_waves =
    (task "core" ("src/" ∷ []) [] ∷ []) ∷ (task "api" ("api/" ∷ []) ("core" ∷ []) ∷ []) ∷ []

chain-plan : topological_batches chain ≡ some (waves chain_waves)
unfolding program
chain-plan = refl

topological_batches_plan_example :
    IsOrdered [] chain_waves
    × ((n : String) → contains (planned chain_waves) n ≡ contains (ids chain) n)
topological_batches_plan_example = topological_batches_plan chain chain_waves chain-plan

topological_batches_acyclic_example :
    (ws : List (List Task)) × (topological_batches chain ≡ some (waves ws))
topological_batches_acyclic_example =
    topological_batches_acyclic chain (refl, (refl, tt)) chain-acyclic

abbrev whole_fleet : Fleet site
whole_fleet = record fleet { design = plan }

design-perform_all-IsSound_example : IsSound site (
    perform_all site
      (Call.dispatch_call "local" intent none ∷ Call.integrate_call ∷ [])
      whole_fleet)
design-perform_all-IsSound_example =
    design-perform_all-IsSound none intent plan (spec_of (design none intent)) site
      (Call.dispatch_call "local" intent none ∷ Call.integrate_call ∷ []) whole_fleet intent-ok refl

-- everything is merged, and then `core` gets another responsibility
abbrev merged_fleet : Fleet site
merged_fleet = record fleet { design = record plan { tasks = map merged plan.tasks } }

abbrev new_intent : IntentSpec
new_intent = record intent {
  components =
      component "api" [] ("core" ∷ "ghost" ∷ [])
      ∷ record (component "core" ("src/core/" ∷ []) ("api" ∷ [])) { responsibility = "more" }
      ∷ [];
}

abbrev new_spec : IntentSpec
new_spec = spec_of (design none new_intent)

new_intent-ok : design none new_intent ≡ ok (plan_of (design none new_intent)) new_spec
unfolding program
new_intent-ok = refl

core-changed :
    changed_from
      (component_ids merged_fleet.design.tasks)
      merged_fleet.design.components
      new_spec.components
    ≡ some ("core" ∷ [])
unfolding program
core-changed = refl

abbrev fleet_of : Option (Fleet site) → Fleet site
fleet_of none = fleet
fleet_of (some f) = f

abbrev evolved : Fleet site
evolved = fleet_of (evolve new_intent merged_fleet)

evolve-some : evolve new_intent merged_fleet ≡ some evolved
unfolding program
evolve-some = refl

api-kept : map (is TaskState.merged) evolved.design.tasks ≡ true ∷ false ∷ []
unfolding program
api-kept = refl

evolve-IsOld_example :
    All
      (λ t.
        (is_done t ≡ false)
        ⊎ IsCarried merged_fleet.design.tasks merged_fleet.design.components new_spec.components t)
      evolved.design.tasks
evolve-IsOld_example =
    evolve-IsOld site new_intent new_spec (plan_of (design none new_intent)) ("core" ∷ [])
      merged_fleet evolved new_intent-ok core-changed evolve-some
