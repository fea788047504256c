-- ===== src/Command/Autopilot/Sound.antt =====
-- `cmd_autopilot` of minifleet/cli.py keeps the tasks proven.
use minifleet.Prelude.{
  ℕ, ◌≡◌, sym, subst, inl, inr, not, ◌&&◌, none, some, is_empty, Option-cases, if-both,
}
use minifleet.Model.{IntentSpec}
use minifleet.Scheduler.State.{Site, Fleet}
use minifleet.Scheduler.Wave.{dispatch, ready}
use minifleet.Scheduler.Repair.{repair_failed}
use minifleet.Scheduler.Integrate.{integrate, verify}
use minifleet.Scheduler.Steps.Tasks.{IsSound}
use minifleet.Scheduler.Steps.Waves.{dispatch-IsSound}
use minifleet.Scheduler.Steps.Repairs.{repair_failed-IsSound}
use minifleet.Scheduler.Steps.Merges.{integrate-IsSound, verify-IsSound}
use minifleet.Command.{answered, Crew, is_passed, dispatched, take_all}
use minifleet.Command.Taken.{take_all-IsSound}
use minifleet.Command.Autopilot.{
  Orders, Turn, Arguments, integrates, repair_round, verify_round, integrate_round, work_round,
  autopilot,
}
use minifleet.Command.Autopilot.Loop.{IfTurn, IfLanded, autopilot-IfLanded}

module _ (s : Site) where
  abbrev P : Fleet s → Type 0
  P f = IsSound s f

  integrate_round-IfTurn : (n : ℕ) (f : Fleet s) → P f → IfTurn s P P (some (integrate_round n f))
  unfolding integrate_round verify_round repair_round
  integrate_round-IfTurn n f h =
      let T = λ (t : Turn s). IfTurn s P P (some t) in
      let merged = integrate-IsSound s f h in
      let g = verify n (integrate f) in
      let judged = verify-IsSound s n (integrate f) merged in
      let repaired = repair_failed-IsSound s n g judged in
      if-both T (integrates f)
        (if-both T (is_passed g.run.status) judged
          (if-both T (is_empty (ready (repair_failed n g).fleet.design.tasks)) repaired repaired))
        merged

  work_round-IfTurn :
      (crew : Crew s) (o : Orders) (f : Fleet s) → P f → IfTurn s P P (work_round crew o f)
  unfolding work_round
  work_round-IfTurn crew o f h =
      let given = dispatched o.spec none f in
      let g = dispatch o.dispatcher o.spec none f in
      let started = dispatch-IsSound s o.dispatcher o.spec none f h in
      if-both (IfTurn s P P) (is_empty given && not (is_empty (ready g.design.tasks))) started
        (elim (Option-cases (answered crew g.lab.world given)) [
          | inl n ↦ rw n tt
          | inr (results, n) ↦ elim (Option-cases (take_all results g)) [
            | inl e ↦ rw (n, e) tt
            | inr (k, e) ↦
                let kept = take_all-IsSound s results g k e started in
                rw (n, e) (integrate_round-IfTurn o.max_attempts k kept)
          ]
        ])

  -- Whatever the workers, git and the shell do: from a fleet whose verified and merged tasks all
  -- have evidence that each of their own task gates passed, and wrote only files of their scope, the
  -- autopilot leaves such a fleet.
  pub autopilot-IsSound :
      (crew : Crew s) (args : Arguments) (spec : IntentSpec) (f g : Fleet s) (code : ℕ)
      → autopilot crew args spec f ≡ some (code, g)
      → IsSound s f
      → IsSound s g
  autopilot-IsSound crew args spec f g code e h =
      elim (subst (IfLanded s P P) e
        (autopilot-IfLanded s P P crew (work_round-IfTurn crew) (λ f k. k) args spec f h)) [
          | inl (two, k) ↦ k
          | inr (l, same, left, k) ↦ subst P (sym left) k
        ]
