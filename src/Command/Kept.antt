-- ===== src/Command/Kept.antt =====
-- What the dispatch and the intake of results, as minifleet/cli.py calls them, keep: the ids of the
-- tasks and the status of the run.
use minifleet.Prelude.{
  ℕ, String, ◌≡◌, refl, sym, ◌∙◌, ap, subst, inl, inr, ◌&&◌, Option, none, some, List, [], ◌∷◌,
  ◌==◌, map, find, filter, all, is_empty, Bool-cases, Option-cases, if-both, arith, eq_iff,
}
use minifleet.Model.{TaskState, Task, IntentSpec}
use minifleet.Scheduler.State.{Site, Fleet, is, update_first, task_gates, run_all}
use minifleet.Scheduler.Wave.{
  merged_ids, may_start, promote, refresh_tasks, refresh, start_ready, prepare, packets, dispatch,
  cut, exhausted, ready, is_room,
}
use minifleet.Scheduler.Submit.{
  handed_in, submit, judged, keep, accept, respond, changed_by, outside_of, ingest, is_pass,
  set_task,
}
use minifleet.Workers.{DispatchResult}
use minifleet.Command.{set_failed, fail_task, take_in, take_all}

abbrev pub ids : List Task → List String
ids ts = map (λ t. t.id) ts

refresh_tasks-ids : (merged : List String) (ts : List Task) → ids (map (promote merged) ts) ≡ ids ts
refresh_tasks-ids merged [] = refl
refresh_tasks-ids merged (t ∷ ts) = elim (Bool-cases (may_start merged t)) [
  | inl e ↦ rw e (ap (λ l. t.id ∷ l) (refresh_tasks-ids merged ts))
  | inr e ↦ rw e (ap (λ l. t.id ∷ l) (refresh_tasks-ids merged ts))
]

start_ready-ids :
    (now : ℕ) (room : Option ℕ) (ts : List Task) → ids (start_ready now room ts) ≡ ids ts
unfolding start_ready
start_ready-ids now room [] = refl
start_ready-ids now room (t ∷ ts) = elim (Bool-cases (is TaskState.ready t && is_room room)) [
  | inl e ↦ rw (start_ready, e) (ap (λ l. t.id ∷ l) (start_ready-ids now _ ts))
  | inr e ↦ rw (start_ready, e) (ap (λ l. t.id ∷ l) (start_ready-ids now _ ts))
]

update_first-ids :
    (u : Task) (ts : List Task) → ids (update_first (λ t. t.id == u.id) (λ t. u) ts) ≡ ids ts
update_first-ids u [] = refl
update_first-ids u (t ∷ ts) = elim (Bool-cases (t.id == u.id)) [
  | inl e ↦
      let same : t.id ≡ u.id = ground (arith, eq_iff t.id u.id) in
      rw e (ap (λ i. i ∷ ids ts) (sym same))
  | inr e ↦ rw e (ap (λ l. t.id ∷ l) (update_first-ids u ts))
]

-- The fleets have tasks of the same ids, in the same order, and runs of the same status.
abbrev pub AreAlike : (s : Site) → Fleet s → Fleet s → Type 0
AreAlike s f g = (ids g.design.tasks ≡ ids f.design.tasks) × (g.run.status ≡ f.run.status)

module _ (s : Site) where
  prepare-ids :
      (base : String) (ts : List Task) (w : s.machine.World) → ids (prepare s base ts w).0 ≡ ids ts
  unfolding prepare
  prepare-ids base [] w = refl
  prepare-ids base (t ∷ ts) w = elim (Bool-cases (is TaskState.ready t)) [
    | inl e ↦ rw e (ap (λ l. t.id ∷ l) (prepare-ids base ts _))
    | inr e ↦ rw e (ap (λ l. t.id ∷ l) (prepare-ids base ts _))
  ]

  pub refresh-AreAlike : (f : Fleet s) → AreAlike s f (refresh f)
  unfolding refresh refresh_tasks
  refresh-AreAlike f =
      let ts = f.design.tasks in
      let merged = merged_ids ts in
      if-both (AreAlike s f) (is_empty (map (λ (t : Task). t.id) (filter (may_start merged) ts)))
        (refl, refl) (refresh_tasks-ids merged ts, refl)

  pub packets-AreAlike : (f : Fleet s) → AreAlike s f (packets f)
  unfolding packets
  packets-AreAlike f =
      let (same, status) = refresh-AreAlike f in
      (prepare-ids _ (refresh f).design.tasks _ ∙ same, status)

  pub dispatch-AreAlike :
      (name : String) (spec : IntentSpec) (limit : Option ℕ) (f : Fleet s)
      → AreAlike s f (dispatch name spec limit f)
  unfolding dispatch
  dispatch-AreAlike name spec limit f = elim (Option-cases (exhausted spec f.run.events)) [
    | inr (budget, e) ↦ rw (dispatch, e) (refl, refl)
    | inl e ↦
        let (same, status) = packets-AreAlike f in
        rw (dispatch, e)
          (if-both (AreAlike s f) (is_empty (cut limit (ready (packets f).design.tasks)))
            (same, status) (start_ready-ids _ _ (packets f).design.tasks ∙ same, status))
  ]

  accept-AreAlike :
      (t : Task) (worker notes : String) (changed : List String) (f : Fleet s)
      → AreAlike s f (accept t worker notes changed f)
  unfolding accept
  accept-AreAlike t worker notes changed f =
      let (sent, f1) = submit t worker notes changed f in
      let gates = task_gates f1.design.gates sent in
      let (evidence, lab) = run_all s sent.worktree gates sent.id f1.lab in
      let judged_task = judged (s.clock lab.world) evidence sent in
      let same : AreAlike s f (keep judged_task evidence (record f1 { lab = lab })) =
        (update_first-ids judged_task f.design.tasks, refl) in
      if-both (AreAlike s f) (all is_pass evidence) same same

  respond-AreAlike :
      (t : Task) (worker notes : String) (changed : List String) (f : Fleet s)
      → AreAlike s f (respond t worker notes changed f)
  respond-AreAlike t worker notes changed f =
      if-both (AreAlike s f) (is_empty (outside_of s t changed))
        (accept-AreAlike t worker notes changed f) (update_first-ids _ f.design.tasks, refl)

  ingest-AreAlike :
      (id worker notes : String) (files : Option (List String)) (f g : Fleet s)
      → ingest id worker notes files f ≡ some g
      → AreAlike s f g
  unfolding ingest
  ingest-AreAlike id worker notes files f g e =
      elim (Option-cases (find (λ t. t.id == id) f.design.tasks)) [
        | inl n ↦ let stuck : none ≡ some g = rw (ingest, n) at e in absurd (ground (arith, stuck))
        | inr (u, n) ↦
            let t = handed_in s u in
            let same : some (respond t worker notes (changed_by t files f) f) ≡ some g =
              rw (ingest, n) at e in
            let done : respond t worker notes (changed_by t files f) f ≡ g = cc in
            subst (AreAlike s f) done (respond-AreAlike t worker notes (changed_by t files f) f)
      ]

  fail_task-AreAlike :
      (r : DispatchResult) (f g : Fleet s) → fail_task r f ≡ some g → AreAlike s f g
  unfolding fail_task
  fail_task-AreAlike r f g e = elim (Option-cases (find (λ t. t.id == r.task_id) f.design.tasks)) [
    | inl n ↦ let stuck : none ≡ some g = rw (fail_task, n) at e in absurd (ground (arith, stuck))
    | inr (t, n) ↦
        let same : some (set_task (set_failed r.notes t) f) ≡ some g = rw (fail_task, n) at e in
        let done : set_task (set_failed r.notes t) f ≡ g = cc in
        subst (AreAlike s f) done (update_first-ids (set_failed r.notes t) f.design.tasks, refl)
  ]

  pub take_in-AreAlike :
      (r : DispatchResult) (f g : Fleet s) → take_in r f ≡ some g → AreAlike s f g
  unfolding take_in
  take_in-AreAlike r f g e = elim (Bool-cases (r.status == "submitted")) [
    | inl n ↦ ingest-AreAlike r.task_id r.worker "" none f g (rw (take_in, n) at e)
    | inr n ↦ fail_task-AreAlike r f g (rw (take_in, n) at e)
  ]

  pub take_all-AreAlike :
      (rs : List DispatchResult) (f g : Fleet s) → take_all rs f ≡ some g → AreAlike s f g
  unfolding take_all
  take_all-AreAlike [] f g e = let same : f ≡ g = cc in subst (AreAlike s f) same (refl, refl)
  take_all-AreAlike (r ∷ rs) f g e = elim (Option-cases (take_in r f)) [
    | inl n ↦ let stuck : none ≡ some g = rw (take_all, n) at e in absurd (ground (arith, stuck))
    | inr (h, n) ↦
        let (same, status) = take_in-AreAlike r f h n in
        let (same2, status2) = take_all-AreAlike rs h g (rw (take_all, n) at e) in
        (same2 ∙ same, status2 ∙ status)
  ]
