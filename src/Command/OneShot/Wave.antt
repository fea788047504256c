-- ===== src/Command/OneShot/Wave.antt =====
-- `cmd_run` of minifleet/cli.py works on the first wave of tasks only.
use minifleet.Prelude.{
  ℕ, zero, suc, String, ◌≡◌, refl, ◌⊎◌, inl, inr, Bool, true, not, ◌&&◌, none, some, List, [], ◌∷◌,
  ◌==◌, map, filter, all, is_empty, is_empty→nil, All-mono, length, All, Bool-cases, Option-cases,
  if-both, arith,
}
use minifleet.Model.{TaskState, Task, IntentSpec}
use minifleet.Scheduler.State.{Site, Fleet, is, task_gates, run_all}
use minifleet.Scheduler.Wave.{
  merged_ids, may_start, promote, refresh_tasks, refresh, equip, prepare, packets, dispatch,
  exhausted, ready,
}
use minifleet.Scheduler.Submit.{
  handed_in, submit, judged, accept, respond, changed_by, outside_of, ingest, is_pass,
}
use minifleet.Scheduler.Steps.Tasks.{All-update_first}
use minifleet.Command.OneShot.{nth, is_worktree_dirty, collect, collect_from, turn, goes_on, drive}
use minifleet.Command.OneShot.First.{
  IsFirstWave, merged_ids-nil, K, IsTaken, promote-K, start_ready-IsTaken, IsTaken-of_none,
  ready-nil, found-IsTaken, nth-found, nth-IsTaken, waiting,
}

module _ (starts : String → Bool) where
  module _ (s : Site) where
    respond-IsTaken :
        (t : Task) (worker : String) (changed : List String) (f : Fleet s)
        → starts t.id ≡ true
        → starts t.id ≡ is_empty t.depends_on
        → All (IsTaken starts) f.design.tasks
        → All (IsTaken starts) (respond t worker "" changed f).design.tasks
    unfolding accept
    respond-IsTaken t worker changed f free same h =
        let T = λ (g : Fleet s). All (IsTaken starts) g.design.tasks in
        let (sent, f1) = submit t worker "" changed f in
        let gates = task_gates f1.design.gates sent in
        let (evidence, lab) = run_all s sent.worktree gates sent.id f1.lab in
        let after = judged (s.clock lab.world) evidence sent in
        let settled : IsTaken starts after =
          if-both (λ (x : TaskState). IsTaken starts (record after { state = x }))
            (all is_pass evidence) ((refl, same, inl free), refl) ((refl, same, inl free), refl) in
        let kept =
          All-update_first (IsTaken starts) (λ u. u.id == t.id) _ f.design.tasks (λ u p. settled)
            h in
        if-both T (is_empty (outside_of s t changed)) (if-both T (all is_pass evidence) kept kept) (
          All-update_first (IsTaken starts) (λ u. u.id == t.id) _ f.design.tasks
            (λ u p. ((refl, same, inl free), refl)) h)

    module _ (exists : s.machine.World → String → Bool) (worker : String) where
      collect-IsTaken :
          (i : ℕ) (t : Task) (f : Fleet s)
          → nth i f.design.tasks ≡ some t
          → All (IsTaken starts) f.design.tasks
          → (g : Fleet s) × (collect exists worker t f ≡ some g)
            × All (IsTaken starts) g.design.tasks
      unfolding collect ingest
      collect-IsTaken i t f e h =
          let (u, found) = nth-found starts i f.design.tasks t e in
          let ((first, waits), named) = found-IsTaken starts f.design.tasks t.id u found h in
          let ((m, k, q), r) = nth-IsTaken starts i f.design.tasks t e h in
          elim (Bool-cases
            (is TaskState.dispatched t && is_worktree_dirty (exists f.lab.world) t)) [
              | inr n ↦ (f, rw (collect, n) refl, h)
              | inl n ↦
                  let free : starts t.id ≡ true = ground (arith, q) in
                  let v = handed_in s u in
                  let changed = changed_by v none f in
                  (
                    respond v worker "" changed f,
                    rw (collect, n, ingest, found) refl,
                    respond-IsTaken v worker changed f (rw named free) first.1 h,
                  )
            ]

      collect_from-IsTaken :
          (k i : ℕ) (f : Fleet s)
          → All (IsTaken starts) f.design.tasks
          → (g : Fleet s) × (collect_from exists worker k i f ≡ some g)
            × All (IsTaken starts) g.design.tasks
      unfolding collect_from
      collect_from-IsTaken zero i f h = (f, refl, h)
      collect_from-IsTaken (suc k) i f h = elim (Option-cases (nth i f.design.tasks)) [
        | inl e ↦ (f, rw (collect_from, e) refl, h)
        | inr (t, e) ↦
            let (g, e2, h2) = collect-IsTaken i t f e h in
            let (last, e3, h3) = collect_from-IsTaken k (suc i) g h2 in
            (last, rw (collect_from, e, e2) e3, h3)
      ]

    prepare-K :
        (base : String) (ts : List Task) (w : s.machine.World)
        → K starts ts
        → K starts (prepare s base ts w).0
    unfolding prepare
    prepare-K base [] w h = tt
    prepare-K base (t ∷ ts) w (k, h) = (
      if-both (λ (r : Task × s.machine.World). IsFirstWave starts r.0) (is TaskState.ready t) k k,
      prepare-K base ts (equip s base t w).1 h,
    )

    refresh-K : (f : Fleet s) → K starts f.design.tasks → K starts (refresh f).design.tasks
    unfolding refresh refresh_tasks
    refresh-K f h =
        let ts = f.design.tasks in
        let promoted : K starts (map (promote (merged_ids ts)) ts) =
          rw (merged_ids-nil starts ts h) (promote-K starts ts h) in
        if-both (λ (g : Fleet s). K starts g.design.tasks)
          (is_empty (map (λ (t : Task). t.id) (filter (may_start (merged_ids ts)) ts))) h promoted

    packets-K : (f : Fleet s) → K starts f.design.tasks → K starts (packets f).design.tasks
    unfolding packets
    packets-K f h = prepare-K _ (refresh f).design.tasks _ (refresh-K f h)

    dispatch-IsTaken :
        (name : String) (spec : IntentSpec) (f : Fleet s)
        → exhausted spec f.run.events ≡ none
        → K starts f.design.tasks
        → All (IsTaken starts) (dispatch name spec none f).design.tasks
    unfolding dispatch
    dispatch-IsTaken name spec f e h =
        let k = packets-K f h in
        let ts = (packets f).design.tasks in
        elim (Bool-cases (is_empty (ready ts))) [
          | inl n ↦ rw (dispatch, e, n) (IsTaken-of_none starts ts n k)
          | inr n ↦ rw (dispatch, e, n) (start_ready-IsTaken starts _ ts k)
        ]

  -- On a fleet where no task is merged and only tasks without dependencies have left the state
  -- pending, and whose dispatch budget is not spent: the loop of `cmd_run` ends in its first turn, no
  -- task is ready then, and every task that has dependencies is still pending: no worker starts it.
  pub drive-first_wave :
      (s : Site) (exists : s.machine.World → String → Bool) (name : String) (spec : IntentSpec)
      (fuel : ℕ) (f : Fleet s)
      → All (IsFirstWave starts) f.design.tasks
      → exhausted spec (refresh f).run.events ≡ none
      → (g : Fleet s) × (drive exists name spec (suc fuel) f ≡ some g)
        × (ready g.design.tasks ≡ [])
        × All (λ t. (t.depends_on ≡ []) ⊎ (is TaskState.pending t ≡ true)) g.design.tasks
  unfolding drive turn
  drive-first_wave s exists name spec fuel f h e =
      let g = refresh f in
      let k = refresh-K s f h in
      elim (Bool-cases (goes_on f g && not (is_empty (ready g.design.tasks)))) [
        | inr n ↦
            let idle : is_empty (ready g.design.tasks) ≡ true = ground arith in
            (
              g,
              rw (drive, n) refl,
              is_empty→nil (ready g.design.tasks) idle,
              waiting starts g.design.tasks k,
            )
        | inl n ↦
            let started = dispatch name spec none g in
            let (last, e2, taken) =
              collect_from-IsTaken s exists name (length started.design.tasks) 0 started
                (dispatch-IsTaken s name spec g e k) in
            let idle = ready-nil starts last.design.tasks taken in
            (
              last,
              rw (drive, n, turn, e2, idle) refl,
              is_empty→nil (ready last.design.tasks) idle,
              waiting starts last.design.tasks (All-mono last.design.tasks (λ t p. p.0) taken),
            )
      ]
