-- ===== src/Command.antt =====
-- The commands of minifleet/cli.py that drive a run, over the scheduler and its workers.
--
-- Parsing the arguments, printing, and the report files are left out.
pub mod Kept
pub mod Taken
pub mod Autopilot
pub mod OneShot
pub mod Evolve
use Prim.Native.String.{[] as no_chars, ◌∷◌ as and_char}
use Prim.Native.Nat.{◌/◌}
use minifleet.Prelude.{
  ℕ, zero, suc, String, Bool, true, false, ◌≡◌, Option, none, some, List, [], ◌∷◌, ◌==◌,
  if◌then◌else◌, find, map,
}
use minifleet.Model.{
  pos, negsuc, Float, finite, quanta, TaskState, RunStatus, text, IntentSpec, Task,
}
use minifleet.Scheduler.State.{Site, Fleet}
use minifleet.Scheduler.Wave.{packets, exhausted, cut, ready}
use minifleet.Scheduler.Submit.{ingest, set_task}
use minifleet.Workers.{DispatchResult}

-- What a command takes from outside: the workers' results, once their wave has ended, and the test
-- `time.time() - started > budget`. A dispatcher can raise, on a result that is not JSON or on a
-- timeout: `none` is that exception.
pub record Crew (s : Site) : Type 0 where
  pub answer : s.machine.World → String → Option DispatchResult
  pub is_late : Float → ℕ → ℕ → Bool

-- No dispatcher raises, and each result names the task it was asked for.
abbrev pub IsNamed : (s : Site) → Crew s → Type 0
IsNamed s crew =
    (w : s.machine.World) (id : String)
    → (r : DispatchResult) × (crew.answer w id ≡ some r) × (r.task_id ≡ id)

-- `status == "passed"`
abbrev pub is_passed : RunStatus → Bool
is_passed RunStatus.passed = true
is_passed status = false

-- `int(limits.get(name, default))`; a number below 0 counts as 0, and `none` is no finite number
abbrev pub whole_limit : ℕ → Option Float → Option ℕ
whole_limit default none = some default
whole_limit default (some (finite (pos q))) = some (q / quanta)
whole_limit default (some (finite (negsuc q))) = some 0
whole_limit default (some x) = none

-- `text[:n]`
abbrev pub clip : ℕ → String → String
clip zero s = ""
clip (suc n) no_chars = ""
clip (suc n) (and_char c s) = and_char c (clip n s)

abbrev pub set_failed : String → Task → Task
set_failed notes t = record t { state = TaskState.failed; notes = text (clip 400 notes) }

module _ {s : Site} where
  -- the tasks whose results `dispatch` returns
  unfoldable pub dispatched : IntentSpec → Option ℕ → Fleet s → List String
  unfolding packets exhausted
  dispatched spec limit f = elim (exhausted spec f.run.events) [
    | some budget ↦ []
    | none ↦ cut limit (ready (packets f).design.tasks)
  ]

  -- a result that is no submission; `none` is the KeyError of an unknown task
  unfoldable pub fail_task : DispatchResult → Fleet s → Option (Fleet s)
  fail_task r f = elim (find (λ t. t.id == r.task_id) f.design.tasks) [
    | none ↦ none
    | some t ↦ some (set_task (set_failed r.notes t) f)
  ]

  -- the body of the loop over the results
  unfoldable pub take_in : DispatchResult → Fleet s → Option (Fleet s)
  unfolding fail_task ingest
  take_in r f =
      if r.status == "submitted" then ingest r.task_id r.worker "" none f else fail_task r f

  unfoldable pub take_all : List DispatchResult → Fleet s → Option (Fleet s)
  unfolding take_in
  take_all [] f = some f
  take_all (r ∷ rs) f = elim (take_in r f) [ none ↦ none | some g ↦ take_all rs g ]

  -- the results of the tasks; the first exception ends the command
  unfoldable pub answered : Crew s → s.machine.World → List String → Option (List DispatchResult)
  answered crew w [] = some []
  answered crew w (id ∷ ids) =
      let rest = answered crew w ids in
      elim (crew.answer w id) [
        | none ↦ none
        | some r ↦ elim rest [ none ↦ none | some rs ↦ some (r ∷ rs) ]
      ]

  abbrev pub take_answers : Option (List DispatchResult) → Fleet s → Option (Fleet s)
  take_answers none f = none
  take_answers (some rs) f = take_all rs f
