-- ===== src/Model/Records.antt =====
-- The dataclasses of minifleet/model.py: intent, design and evidence.
--
-- Times are whole ticks of the clock. The durations and time stamps of evidence are left out, and
-- a message that the code formats is a value that keeps what is formatted.
use minifleet.Prelude.{ℕ, String, Bool, Option, List}
use minifleet.Model.Number.{ℤ, Float}
use minifleet.Model.Json.{Value}
use minifleet.Model.State.{TaskState}

-- The `detail` of an evidence, and the notes of a task.
pub data Message : Type 0 where
  text : String → Message
  exit : ℤ → List ℤ → List ℕ → Message
  unknown_kind : String → Message
  raised : String → Message
  paths : List String → List String → Message
  all_satisfied : List String → Message
  no_artifact : String → Message
  not_found : String → String → Message
  observed : String → Value → Value → Message
  unmeasured : String → Message
  budget : String → Float → String → Float → Bool → Message
  outside_scope : List String → Message
  system_gate_failed : String → Message → Message

pub record AcceptanceCriterion : Type 0 where
  pub id : String
  pub statement : String
  pub kind : String
  pub gates : List String

pub record Contract : Type 0 where
  pub id : String
  pub path : String
  pub summary : String
  pub exports : List (String × String)
  pub frozen : Bool
  pub content : String

pub record Component : Type 0 where
  pub id : String
  pub name : String
  pub responsibility : String
  pub owns : List String
  pub depends_on : List String
  pub contract_ids : List String
  pub acceptance_ids : List String
  pub tests : List String
  pub done_when : List String
  pub gate_ids : List String

pub record Gate : Type 0 where
  pub id : String
  pub title : String
  pub kind : String
  pub cmd : String
  pub cwd : String
  pub timeout : Float
  pub required : Bool
  pub scope : String
  pub expect_exit : List ℤ
  pub metric : String
  pub op : String
  pub threshold : Float
  pub paths : List String
  pub json_path : String
  pub json_expected : Value
  pub description : String
  pub attributed_to : List String

pub record IntentSpec : Type 0 where
  pub id : String
  pub title : String
  pub summary : String
  pub stakeholders : List String
  pub deliverables : List String
  pub acceptance : List AcceptanceCriterion
  pub constraints : List String
  pub budgets : List (String × Value)
  pub out_of_scope : List String
  pub components : List Component
  pub gate_defs : List Gate
  pub contracts : List Contract
  pub harness_dir : String
  pub baseline_from : String
  pub limits : List (String × Float)

pub record Evidence : Type 0 where
  pub gate_id : String
  pub status : String
  pub detail : Message
  pub exit_code : Option ℤ
  pub metrics : List (String × Float)
  pub artifacts : List String
  pub output_tail : List ℕ
  pub task_id : String

pub record Task : Type 0 where
  pub id : String
  pub title : String
  pub role : String
  pub goal : String
  pub owns : List String
  pub depends_on : List String
  pub contract_ids : List String
  pub acceptance_ids : List String
  pub done_when : List String
  pub tests : List String
  pub gate_ids : List String
  pub component_id : String
  pub state : TaskState
  pub attempts : ℕ
  pub branch : String
  pub worktree : String
  pub submitted_files : List String
  pub evidence : List Evidence
  pub notes : Message
  pub started_at : Option ℕ
  pub finished_at : Option ℕ

-- A risk that the architect names, and a repair that it records.
pub data Risk : Type 0 where
  wide_graph nfr_trust no_out_of_scope : Risk

pub data Repair : Type 0 where
  added_probe : String → String → Repair
  assigned_scope : String → String → Repair
  broke_cycle : List String → String → List String → Repair
  dropped_unknown : String → List String → Repair

-- The three decisions that every design states.
pub data Decision : Type 0 where
  verification_owns_acceptance single_writer : Decision
  frozen_contracts : List String → Decision

pub record Design : Type 0 where
  pub intent_id : String
  pub components : List Component
  pub contracts : List Contract
  pub tasks : List Task
  pub gates : List Gate
  pub risks : List Risk
  pub decisions : List Decision
  pub repairs : List Repair
