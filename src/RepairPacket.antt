-- ===== src/RepairPacket.antt =====
-- minifleet/repair.py: the brief of a failed task's next attempt. A row of evidence is a dict, and
-- a key that it lacks is `none`; the texts that the code formats are values.
pub mod Bounded
use minifleet.Prelude.{
  ℕ, String, Bool, Option, none, some, List, [], ◌∷◌, ◌++◌, map, ◌==◌, if◌then◌else◌, leb, sort_by,
  str_le,
}
use minifleet.Model.{Message, text, Evidence, Task}

pub record Row : Type 0 where
  pub gate_id : Option String
  pub status : Option String
  pub detail : Option Message

pub record Failure : Type 0 where
  pub gate_id : String
  pub status : String
  pub detail : Message

-- `str(item.get(key, "") or "")`
abbrev pub or_empty : Option String → String
or_empty none = ""
or_empty (some s) = s

abbrev pub or_no_text : Option Message → Message
or_no_text none = text ""
or_no_text (some m) = m

abbrev pub failure : Row → Failure
failure r = record {
  gate_id = or_empty r.gate_id;
  status = if or_empty r.status == "" then "unknown" else or_empty r.status;
  detail = or_no_text r.detail;
}

unfoldable pub failures : List Row → List Failure
failures [] = []
failures (r ∷ rs) =
    let rest = failures rs in if or_empty r.status == "pass" then rest else failure r ∷ rest

abbrev pub by_gate_id : Failure → Failure → Bool
by_gate_id a b = str_le a.gate_id b.gate_id

unfoldable pub failing_gates : List Row → List Failure
unfolding failures
failing_gates rows = sort_by by_gate_id (failures rows)

pub data Instruction : Type 0 where
  none_recorded rerun_gates : Instruction
  fix : Failure → Instruction
  rerun : String → Instruction
  stop_retrying : ℕ → ℕ → Instruction

pub data Reason : Type 0 where
  no_failing_gate : ℕ → ℕ → Reason
  exhausted : ℕ → ℕ → List String → Reason
  failed : ℕ → ℕ → List String → Reason

abbrev pub fixes : List Failure → List Instruction
fixes [] = []
fixes (f ∷ fs) = Instruction.fix f ∷ Instruction.rerun f.gate_id ∷ fixes fs

unfoldable pub instructions : List Failure → ℕ → ℕ → Bool → List Instruction
instructions [] attempt max_attempts escalate =
    Instruction.none_recorded ∷ Instruction.rerun_gates ∷ []
instructions (f ∷ fs) attempt max_attempts escalate =
    fixes (f ∷ fs) ++ (if escalate then Instruction.stop_retrying attempt max_attempts ∷ [] else [])

unfoldable pub reason : List Failure → ℕ → ℕ → Bool → Reason
reason [] attempt max_attempts escalate = Reason.no_failing_gate attempt max_attempts
reason (f ∷ fs) attempt max_attempts escalate =
    let names = map (λ f. f.gate_id) (f ∷ fs) in
    if escalate
    then Reason.exhausted attempt max_attempts names
    else Reason.failed attempt max_attempts names

pub record Packet : Type 0 where
  pub task_id : String
  pub attempt : ℕ
  pub max_attempts : ℕ
  pub escalate : Bool
  pub why : Reason
  pub failing : List Failure
  pub steps : List Instruction
  pub scope : List String
  pub carry_forward : List String

unfoldable pub build_repair_packet : Task → List Row → ℕ → ℕ → Packet
unfolding failing_gates instructions reason
build_repair_packet task rows attempt max_attempts =
    let failing = failing_gates rows in
    let escalate = leb max_attempts attempt in
    record {
      task_id = task.id;
      attempt = attempt;
      max_attempts = max_attempts;
      escalate = escalate;
      why = reason failing attempt max_attempts escalate;
      failing = failing;
      steps = instructions failing attempt max_attempts escalate;
      scope = task.owns;
      carry_forward = task.submitted_files;
    }

-- `Evidence.to_dict`, as far as a packet reads it
abbrev pub row : Evidence → Row
row e = record { gate_id = some e.gate_id; status = some e.status; detail = some e.detail }
