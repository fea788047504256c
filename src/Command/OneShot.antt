-- ===== src/Command/OneShot.antt =====
-- `cmd_run` of minifleet/cli.py behind its planning: dispatch and ingest in a loop, then one
-- integration and one verification.
--
-- The loop runs on fuel; `none` is an exception, or no fuel left.
pub mod First
pub mod Wave
use minifleet.Prelude.{
  ℕ, zero, suc, String, Bool, true, false, not, ◌&&◌, ◌||◌, Option, none, some, List, [], ◌∷◌, ◌==◌,
  if◌then◌else◌, filter, is_empty, length,
}
use minifleet.Model.{TaskState, Task, IntentSpec}
use minifleet.Scheduler.State.{Site, Fleet, is}
use minifleet.Scheduler.Wave.{may_start, merged_ids, refresh, dispatch, ready}
use minifleet.Scheduler.Submit.{ingest}
use minifleet.Scheduler.Integrate.{integrate, verify}
use minifleet.Workers.{Dispatcher, packet_dispatcher, command_dispatcher, http_dispatcher, name_of}
use minifleet.Command.{is_passed}

abbrev pub nth : ℕ → List Task → Option Task
nth n [] = none
nth zero (t ∷ ts) = some t
nth (suc n) (t ∷ ts) = nth n ts

abbrev pub is_worktree_dirty : (String → Bool) → Task → Bool
is_worktree_dirty exists t = not (t.worktree == "") && exists t.worktree

module _ {s : Site} where
  -- `scheduler.refresh() or scheduler.ready()`, where `g` is the fleet that the refresh leaves
  abbrev pub goes_on : Fleet s → Fleet s → Bool
  goes_on f g =
      not (is_empty (filter (may_start (merged_ids f.design.tasks)) f.design.tasks))
      || not (is_empty (ready g.design.tasks))

  abbrev pub judge_run : Option (Fleet s) → Option (ℕ × Fleet s)
  judge_run none = none
  judge_run (some f) =
      let g = verify 3 (integrate f) in some (if is_passed g.run.status then 0 else 1, g)

-- `exists` is the test of a path in a world.
module _ {s : Site} (exists : s.machine.World → String → Bool) where
  -- a task that was dispatched and has its worktree is ingested
  unfoldable pub collect : String → Task → Fleet s → Option (Fleet s)
  unfolding ingest
  collect worker t f =
      if is TaskState.dispatched t && is_worktree_dirty (exists f.lab.world) t
      then ingest t.id worker "" none f
      else some f

  -- the loop over the tasks from the place `i` on, `k` places
  unfoldable pub collect_from : String → ℕ → ℕ → Fleet s → Option (Fleet s)
  unfolding collect
  collect_from worker zero i f = some f
  collect_from worker (suc k) i f = elim (nth i f.design.tasks) [
    | none ↦ some f
    | some t ↦ elim (collect worker t f) [ none ↦ none | some g ↦ collect_from worker k (suc i) g ]
  ]

  -- the body of the loop, past the tests that leave it
  unfoldable pub turn : String → IntentSpec → Fleet s → Option (Fleet s)
  unfolding dispatch collect_from
  turn name spec f =
      let g = dispatch name spec none f in collect_from name (length g.design.tasks) 0 g

  unfoldable pub drive : String → IntentSpec → ℕ → Fleet s → Option (Fleet s)
  unfolding refresh turn
  drive name spec zero f = none
  drive name spec (suc fuel) f =
      let g = refresh f in
      let more = goes_on f g && not (is_empty (ready g.design.tasks)) in
      elim more [
        | false ↦ some g
        | true ↦ elim (turn name spec g) [
          | none ↦ none
          | some h ↦ elim (is_empty (ready h.design.tasks)) [
            | true ↦ some h
            | false ↦ drive name spec fuel h
          ]
        ]
      ]

  -- the exit code and the run that `cmd_run` leaves
  unfoldable pub run_once : Dispatcher → IntentSpec → ℕ → Fleet s → Option (ℕ × Fleet s)
  unfolding drive integrate verify
  run_once packet_dispatcher spec fuel f = some (2, f)
  run_once (command_dispatcher c) spec fuel f = judge_run (drive "command" spec fuel f)
  run_once (http_dispatcher e) spec fuel f = judge_run (drive "http" spec fuel f)
