-- ===== src/Command/Autopilot/Green.antt =====
-- What exit code 0 of `cmd_autopilot` of minifleet/cli.py says.
use minifleet.Prelude.{
  ℕ, String, ◌≡◌, refl, sym, ◌∙◌, ap, subst, ◌⊎◌, inl, inr, true, false, not, ◌&&◌, Option, none,
  some, List, [], ◌∷◌, ◌++◌, is_empty, All, Bool-cases, Option-cases, if-both, arith,
}
use minifleet.Model.{RunStatus, Event, IntentSpec, Task}
use minifleet.Gates.Verdicts.{IsGreen}
use minifleet.Scheduler.State.{Site, Fleet, is, system_gates, tell}
use minifleet.Scheduler.Wave.{dispatch, ready}
use minifleet.Scheduler.Submit.{packet_of, found}
use minifleet.Scheduler.Repair.{
  Outcome, quiet, reopen_one, reopen_all, red_rows, needs_attribution, attribute_latest,
  repair_failed,
}
use minifleet.Model.{TaskState}
use minifleet.Scheduler.Integrate.{
  begin, conflicts_of, merge_waves, merge_verified, settle, integrate, verify, measure,
  budgets_last, required_ids,
}
use minifleet.Scheduler.Verified.{
  IsOfStatus, refresh-IsOfStatus, attribute_failures-IsOfStatus, verify-passed_iff,
}
use minifleet.Command.{answered, Crew, is_passed, dispatched, take_all}
use minifleet.Command.Kept.{dispatch-AreAlike}
use minifleet.Command.Autopilot.{
  Orders, Turn, Flight, Arguments, is_merged_cleanly, integrates, repair_round, verify_round,
  integrate_round, work_round, exit_code, autopilot,
}
use minifleet.Command.Autopilot.Loop.{IfTurn, IfLanded, autopilot-IfLanded}

module _ (s : Site) where
  module _ (x : RunStatus) (n : ℕ) where
    reopen_one-IsOfStatus :
        (before : List Task) (t : Task) (ts : List Task) (o : Outcome s)
        → IsOfStatus s x o.fleet
        → IsOfStatus s x (reopen_one n before t ts o).1.fleet
    unfolding reopen_one
    reopen_one-IsOfStatus before t ts o h =
        let S = λ (r : Task × Outcome s). IsOfStatus s x r.1.fleet in
        let bare = record t { worktree = "" } in
        let packet = packet_of n (found (before ++ bare ∷ ts) bare) in
        if-both S (is TaskState.failed t) (if-both S packet.escalate h h) h

    reopen_all-IsOfStatus :
        (before ts : List Task) (o : Outcome s)
        → IsOfStatus s x o.fleet
        → IsOfStatus s x (reopen_all n before ts o).fleet
    unfolding reopen_all
    reopen_all-IsOfStatus before [] o h = h
    reopen_all-IsOfStatus before (t ∷ ts) o h =
        reopen_all-IsOfStatus (before ++ (reopen_one n before t ts o).0 ∷ []) ts _
          (reopen_one-IsOfStatus before t ts o h)

    attribute_latest-IsOfStatus :
        (f : Fleet s) → IsOfStatus s x f → IsOfStatus s x (attribute_latest n f).fleet
    unfolding attribute_latest
    attribute_latest-IsOfStatus f h =
        let failing = red_rows f.run.evidence in
        if-both (λ (o : Outcome s). IsOfStatus s x o.fleet)
          (needs_attribution f.run && not (is_empty failing))
          (attribute_failures-IsOfStatus s x n none failing f h) h

    repair_failed-IsOfStatus :
        (f : Fleet s) → IsOfStatus s x f → IsOfStatus s x (repair_failed n f).fleet
    unfolding repair_failed
    repair_failed-IsOfStatus f h =
        let o = reopen_all n [] f.design.tasks (quiet f) in
        refresh-IsOfStatus s x (attribute_latest n o.fleet).fleet (
          attribute_latest-IsOfStatus o.fleet (reopen_all-IsOfStatus [] f.design.tasks (quiet f) h))

  -- the run has not passed
  abbrev IsOpen : Fleet s → Type 0
  IsOpen f = is_passed f.run.status ≡ false

  -- the fleet is what a verification left, or its run has not passed
  abbrev IsJudged : Fleet s → Type 0
  IsJudged f = IsOpen f ⊎ ((n : ℕ) × (h : Fleet s) × (f ≡ verify n h))

  settle-IsOpen : (e : String) (o : Option String) (f : Fleet s) → o ≡ some e → IsOpen (settle o f)
  settle-IsOpen e none f h = absurd (ground (arith, h))
  settle-IsOpen e (some x) f h = refl

  merge_verified-IsOpen : (f : Fleet s) → is_merged_cleanly f ≡ false → IsOpen (merge_verified f)
  merge_verified-IsOpen f h =
      let m = merge_waves (s.checkout f.lab.world f.run.integration_branch) f in
      elim (Option-cases m.error) [
        | inl e ↦
            let clash : true ≡ false = rw (is_merged_cleanly, e) at h in
            absurd (ground (arith, clash))
        | inr (x, e) ↦ settle-IsOpen x m.error m.fleet e
      ]

  integrate-IsOpen : (f : Fleet s) → integrates f ≡ false → IsOpen (integrate f)
  unfolding integrate integrates
  integrate-IsOpen f h = elim (Bool-cases (is_empty (conflicts_of (begin f)))) [
    | inr e ↦ rw (integrate, e) refl
    | inl e ↦ rw (integrate, e) (merge_verified-IsOpen (begin f) (rw (integrates, e) at h))
  ]

  integrate_round-IfTurn :
      (n : ℕ) (f : Fleet s) → IfTurn s IsOpen IsJudged (some (integrate_round n f))
  unfolding integrate_round verify_round repair_round
  integrate_round-IfTurn n f =
      let T = λ (t : Turn s). IfTurn s IsOpen IsJudged (some t) in
      let g = verify n (integrate f) in
      elim (Bool-cases (integrates f)) [
        | inr e ↦ rw (integrate_round, e) (inl (integrate-IsOpen f e))
        | inl e ↦
            rw (integrate_round, e)
              (elim (Bool-cases (is_passed g.run.status)) [
                | inl p ↦ rw (verify_round, p) (inr (n, integrate f, refl))
                | inr p ↦
                    let kept = repair_failed-IsOfStatus g.run.status n g refl in
                    let open_still : IsOpen (repair_failed n g).fleet = rw kept p in
                    rw (verify_round, p)
                      (if-both T (is_empty (ready (repair_failed n g).fleet.design.tasks))
                        (inl open_still) open_still)
              ])
      ]

  work_round-IfTurn :
      (crew : Crew s) (o : Orders) (f : Fleet s)
      → IsOpen f
      → IfTurn s IsOpen IsJudged (work_round crew o f)
  unfolding work_round
  work_round-IfTurn crew o f h =
      let given = dispatched o.spec none f in
      let g = dispatch o.dispatcher o.spec none f in
      let (same, kept) = dispatch-AreAlike s o.dispatcher o.spec none f in
      if-both (IfTurn s IsOpen IsJudged) (is_empty given && not (is_empty (ready g.design.tasks)))
        (inl (rw kept h))
        (elim (Option-cases (answered crew g.lab.world given)) [
          | inl n ↦ rw n tt
          | inr (results, n) ↦ elim (Option-cases (take_all results g)) [
            | inl e ↦ rw (n, e) tt
            | inr (k, e) ↦ rw (n, e) (integrate_round-IfTurn o.max_attempts k)
          ]
        ])

  is_passed→eq : (x : RunStatus) → is_passed x ≡ true → x ≡ RunStatus.passed
  is_passed→eq x h = ground arith

  exit_code-zero : (l : Flight s) → exit_code l ≡ 0 → is_passed l.fleet.run.status ≡ true
  exit_code-zero l h = ground arith

  -- Exit code 0 of the autopilot, on a run that has not passed before, says that the last thing that
  -- the autopilot did to the run, but for telling that it has finished, was a verification in which
  -- every required system gate had evidence whose last row is a pass.
  pub autopilot-IsGreen :
      (crew : Crew s) (args : Arguments) (spec : IntentSpec) (f g : Fleet s)
      → is_passed f.run.status ≡ false
      → autopilot crew args spec f ≡ some (0, g)
      → (n : ℕ) × (h : Fleet s) × (e : Event) × (g ≡ tell e (verify n h))
        × All (IsGreen (measure h).0) (required_ids (budgets_last (system_gates h.design.gates)))
  autopilot-IsGreen crew args spec f g open_before e =
      elim (subst (IfLanded s IsOpen IsJudged) e (
        autopilot-IfLanded s IsOpen IsJudged crew (work_round-IfTurn crew) (λ k o. inl o) args spec
          f open_before)) [
            | inl (two, k) ↦ absurd (ground (arith, two))
            | inr (l, code, left, inl k) ↦
                let passed = exit_code-zero l (sym code) in absurd (ground (arith, passed, k))
            | inr (l, code, left, inr (n, h, k)) ↦
                let passed =
                  is_passed→eq (verify n h).run.status (rw k at (exit_code-zero l (sym code))) in
                let event =
                  Event.autopilot_finished l.fleet.run.status l.fleet.run.verdict l.rounds
                    l.exhausted in
                (n, h, event, left ∙ ap (tell event) k, (verify-passed_iff s n h).0.0 passed)
          ]
