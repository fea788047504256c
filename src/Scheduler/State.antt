-- ===== src/Scheduler/State.antt =====
-- The state of `Scheduler` of minifleet/scheduler.py, and what it takes from the git wrapper.
--
-- A task object is named by its place in the design. `Site` is the interface to minifleet/worktree.py,
-- the workers and the files of a run; a call of it that raises outside a `try` ends the program.
use minifleet.Prelude.{
  ℕ, String, Bool, ◌&&◌, Option, List, [], ◌∷◌, ◌==◌, if◌then◌else◌, filter, contains, Dict, insert,
}
use minifleet.Model.{TaskState, in_state, Gate, Evidence, Task, Design, Run, Event, log}
use minifleet.Gates.Runner.{Machine, Lab, run}
use minifleet.RepairPacket.{Packet}

-- A call inside a `try`.
pub data Done (W : Type 0) : Type 0 where
  done : W → Done W
  failed : String → W → Done W

pub record Site : Type 1 where
  pub machine : Machine
  pub fnmatch : String → String → Bool
  pub evidence_dir : String
  pub sandbox : String → String
  pub clock : machine.World → ℕ
  pub head : machine.World → String
  pub changed_files : machine.World → String → String → List String
  pub commit_all : machine.World → String → Task → Option String × machine.World
  pub attempt_branch : machine.World → String → String → String → String
  pub add_worktree : machine.World → String → String → String → machine.World
  pub remove_worktree : machine.World → String → machine.World
  pub ensure_branch : machine.World → String → machine.World
  pub checkout : machine.World → String → Done machine.World
  pub merge : machine.World → Task → Done machine.World
  pub write_packet : machine.World → Task → machine.World
  pub write_brief : machine.World → Packet → machine.World
  pub describe : List String → String
  pub work : machine.World → List String → machine.World

-- The scheduler: the run, the design, the world and the store of metrics.
pub record Fleet (s : Site) : Type 0 where
  pub run : Run
  pub design : Design
  pub lab : Lab s.machine

-- `task.state == X`
abbrev pub is : TaskState → Task → Bool
is x t = in_state t.state x

-- the gates of a task that run in its worktree
abbrev pub task_gates : List Gate → Task → List Gate
task_gates gates t = filter (λ g. contains t.gate_ids g.id && g.scope == "task") gates

abbrev pub system_gates : List Gate → List Gate
system_gates gates = filter (λ g. g.scope == "system") gates

-- the first element that passes the test, changed
abbrev pub update_first {ℓ} : {A : Type ℓ} → (A → Bool) → (A → A) → List A → List A
update_first p f [] = []
update_first p f (x ∷ xs) = let rest = update_first p f xs in if p x then f x ∷ xs else x ∷ rest

-- `{e.gate_id: e.status for e in evidence}`
abbrev pub statuses : Dict String → List Evidence → Dict String
statuses d [] = d
statuses d (e ∷ es) = statuses (insert e.gate_id e.status d) es

module _ {s : Site} where
  abbrev pub tell : Event → Fleet s → Fleet s
  tell e f = record f { run = log f.run e }

  abbrev pub with_tasks : List Task → Fleet s → Fleet s
  with_tasks ts f = record f { design = record f.design { tasks = ts } }

  abbrev pub with_world : s.machine.World → Fleet s → Fleet s
  with_world w f = record f { lab = record f.lab { world = w } }

-- the gates, one after the other
unfoldable pub run_all :
    (s : Site) → String → List Gate → String → Lab s.machine → List Evidence × Lab s.machine
run_all s workspace [] task_id lab = ([], lab)
run_all s workspace (g ∷ gs) task_id lab =
    let (e, after) = run s.machine workspace s.evidence_dir g task_id lab in
    let (es, last) = run_all s workspace gs task_id after in (e ∷ es, last)
