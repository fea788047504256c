-- ===== src/Command/Evolve.antt =====
-- `cmd_evolve` of minifleet/cli.py: a new intent for a run that has been worked on.
--
-- The file evolution.json and the printed delta are left out, and so is the intent that the run
-- stores. `none` is an exception: a DesignError, or a task of a component that the old design lacks.
pub mod Kept
use Prim.Native.String.{◌++◌ as append}
use minifleet.Prelude.{
  String, Bool, true, false, not, ◌||◌, Option, none, some, List, [], ◌∷◌, ◌==◌, map, if◌then◌else◌,
  filter, find, contains, minus, sort_by, str_le,
}
use minifleet.Model.{
  TaskState, RunStatus, Component, IntentSpec, Task, Design, Delta, Event, eq_names,
}
use minifleet.Architect.Review.{Designed, ok, design_error, design}
use minifleet.Scheduler.State.{Site, Fleet, tell, with_tasks}
use minifleet.Scheduler.Wave.{refresh}
use minifleet.Scheduler.Repair.{sorted_set, reopen}
use minifleet.Scheduler.Integrate.{find_last, has_id, with_status}

-- another responsibility, or other paths
unfoldable pub differs : Component → Component → Bool
unfolding eq_names sort_by str_le
differs old new =
    not (old.responsibility == new.responsibility)
    || not (eq_names (sort_by str_le old.owns) (sort_by str_le new.owns))

-- the components of the new intent that had a task and differ; `none` is a StopIteration
unfoldable pub changed_from : List String → List Component → List Component → Option (List String)
unfolding differs
changed_from old_ids olds [] = some []
changed_from old_ids olds (c ∷ cs) =
    let rest = changed_from old_ids olds cs in
    let had_task = contains old_ids c.id in
    elim had_task [
      | false ↦ rest
      | true ↦ elim (find (λ (o : Component). o.id == c.id) olds) [
        | none ↦ none
        | some o ↦ elim rest [
          | none ↦ none
          | some ids ↦ some (if differs o c then c.id ∷ ids else ids)
        ]
      ]
    ]

-- `merged.get(f"T-{t.component_id}", t)`, where `merged` maps an id to the last task with it
abbrev pub old_or : List Task → Task → Task
old_or olds t = elim (find_last (has_id (append "T-" t.component_id)) olds) [
  | none ↦ t
  | some u ↦ u
]

-- a new or changed component starts over
abbrev pub starts_over : List String → List String → Task → Bool
starts_over added changed t = contains added t.component_id || contains changed t.component_id

abbrev pub carried : List String → List String → List Task → Task → Task
carried added changed olds t = if starts_over added changed t then t else old_or olds t

abbrev pub reset_changed : List String → Task → Task
reset_changed changed t = if contains changed t.component_id then reopen t else t

unfoldable pub carry_all : List String → List String → List Task → List Task → List Task
carry_all added changed olds ts = map (reset_changed changed) (map (carried added changed olds) ts)

abbrev pub component_ids : List Task → List String
component_ids ts = map (λ t. t.component_id) ts

abbrev pub added_by : List Task → List Component → List String
added_by ts cs = sorted_set (minus (map (λ c. c.id) cs) (component_ids ts))

abbrev pub removed_by : List Task → List Component → List String
removed_by ts cs = sorted_set (minus (component_ids ts) (map (λ c. c.id) cs))

abbrev pub delta_of : String → IntentSpec → List Task → List Task → List String → Delta
delta_of from_intent spec olds ts changed =
    let added = added_by olds spec.components in
    record {
      from_intent = from_intent;
      to_intent = spec.id;
      added_components = added;
      removed_components = removed_by olds spec.components;
      changed_components = sort_by str_le changed;
      new_tasks = map (λ t. t.id) (filter (λ t. contains added t.component_id) ts);
      reopened_tasks = map (λ c. append "T-" c) changed;
    }

module _ {s : Site} where
  abbrev pub with_design : Design → Fleet s → Fleet s
  with_design plan f = record f { design = plan }

  -- the command past the new design and the list of changed components
  unfoldable pub adopt : Design → IntentSpec → List String → Fleet s → Fleet s
  unfolding carry_all refresh
  adopt plan spec changed f =
      let olds = f.design.tasks in
      let ts = carry_all (added_by olds spec.components) changed olds plan.tasks in
      let g = with_tasks ts (with_design plan (with_status RunStatus.evolving f)) in
      tell (Event.evolve_planned (delta_of f.run.intent_id spec olds plan.tasks changed))
        (refresh g)

  abbrev pub adopt_designed : Fleet s → Designed → Option (Fleet s)
  adopt_designed f (design_error problems) = none
  adopt_designed f (ok plan spec) =
      elim (changed_from (component_ids f.design.tasks) f.design.components spec.components) [
        | none ↦ none
        | some changed ↦ some (adopt plan spec changed f)
      ]

  unfoldable pub evolve : IntentSpec → Fleet s → Option (Fleet s)
  unfolding design changed_from adopt
  evolve spec f = adopt_designed f (design none spec)
