-- ===== src/Model/Ledger.antt =====
-- The run record of minifleet/model.py, with the verdicts and the ledger's events as data.
use minifleet.Prelude.{ℕ, String, Bool, true, false, ◌&&◌, Option, List, [], ◌∷◌, ◌++◌, ◌==◌}
use minifleet.Model.Number.{Float}
use minifleet.Model.State.{RunStatus}
use minifleet.Model.Records.{Evidence}

-- The verdict texts. `unset` is the empty text, and only `green` begins with "pass".
pub data Verdict : Type 0 where
  unset : Verdict
  green : Verdict
  no_evidence : List String → Verdict
  red : List (String × String) → Verdict
  ownership_conflicts : List (String × String × List String) → Verdict
  integration_error : String → Verdict

abbrev pub passes : Verdict → Bool
passes Verdict.green = true
passes _ = false

abbrev pub is_set : Verdict → Bool
is_set Verdict.unset = false
is_set _ = true

-- `a == b` of two lists of texts
unfoldable pub eq_names : List String → List String → Bool
eq_names [] [] = true
eq_names (a ∷ ps) (b ∷ qs) = a == b && eq_names ps qs
eq_names _ _ = false

eq_pairs : List (String × String) → List (String × String) → Bool
eq_pairs [] [] = true
eq_pairs ((a, s) ∷ ps) ((b, t) ∷ qs) = a == b && s == t && eq_pairs ps qs
eq_pairs _ _ = false

eq_conflicts : List (String × String × List String) → List (String × String × List String) → Bool
unfolding eq_names
eq_conflicts [] [] = true
eq_conflicts ((a, b, l) ∷ ps) ((c, d, m) ∷ qs) =
    a == c && b == d && eq_names l m && eq_conflicts ps qs
eq_conflicts _ _ = false

-- `a == b` of two verdicts
unfoldable pub eq_verdict : Verdict → Verdict → Bool
unfolding eq_names eq_pairs eq_conflicts
eq_verdict Verdict.unset Verdict.unset = true
eq_verdict Verdict.green Verdict.green = true
eq_verdict (Verdict.no_evidence l) (Verdict.no_evidence m) = eq_names l m
eq_verdict (Verdict.red l) (Verdict.red m) = eq_pairs l m
eq_verdict (Verdict.ownership_conflicts l) (Verdict.ownership_conflicts m) = eq_conflicts l m
eq_verdict (Verdict.integration_error a) (Verdict.integration_error b) = a == b
eq_verdict _ _ = false

-- which budget ended the autopilot
pub data Exhaustion : Type 0 where
  wall_clock : Float → Exhaustion
  dispatches : Exhaustion

-- what a new intent changes
pub record Delta : Type 0 where
  pub from_intent : String
  pub to_intent : String
  pub added_components : List String
  pub removed_components : List String
  pub changed_components : List String
  pub new_tasks : List String
  pub reopened_tasks : List String

pub data Event : Type 0 where
  tasks_ready : List String → Event
  budget_exhausted : ℕ → Float → Event
  tasks_dispatched : String → List String → Event
  scope_violation : String → List String → Event
  submitted : String → String → List String → Option String → String → Event
  task_verified : String → List (String × String) → Event
  task_failed : String → List (String × String) → Event
  repair_packet : String → ℕ → Bool → Event
  escalated : String → ℕ → Event
  reopened : String → ℕ → Event
  integrate_conflict : List (String × String × List String) → Event
  task_merged : String → String → Event
  integrate_error : String → Event
  system_verified : Verdict → List (String × String) → List String → List String → Event
  attributed : String → String → ℕ → Bool → Event
  unattributed : List String → Event
  evolve_planned : Delta → Event
  autopilot_finished : RunStatus → Verdict → ℕ → Option Exhaustion → Event

pub record Run : Type 0 where
  pub id : String
  pub intent_id : String
  pub status : RunStatus
  pub repo_dir : String
  pub integration_branch : String
  pub dispatcher : String
  pub evidence : List Evidence
  pub events : List Event
  pub verdict : Verdict
  pub attributed_verdict : Verdict

-- `Run.log`: the events stand in the order in which they were logged.
abbrev pub log : Run → Event → Run
log r e = record r { events = r.events ++ e ∷ [] }
