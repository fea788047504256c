-- ===== src/Model/State.antt =====
-- The enums of minifleet/model.py, and equality of task states.
use minifleet.Prelude.{ℕ, Bool, ◌≡◌, arith, eqb}

pub data TaskState : Type 0 where
  pending ready dispatched submitted verified failed merged : TaskState

pub data RunStatus : Type 0 where
  planning running integrating verifying passed failed evolving : RunStatus

abbrev rank : TaskState → ℕ
rank TaskState.pending = 0
rank TaskState.ready = 1
rank TaskState.dispatched = 2
rank TaskState.submitted = 3
rank TaskState.verified = 4
rank TaskState.failed = 5
rank TaskState.merged = 6

-- `task.state == TaskState.X.value`
abbrev pub in_state : TaskState → TaskState → Bool
in_state s t = eqb (rank s) (rank t)

pub in_state→eq : (s t : TaskState) → in_state s t ≡ Bool.true → s ≡ t
in_state→eq s t h = ground arith
