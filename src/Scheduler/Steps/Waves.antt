-- ===== src/Scheduler/Steps/Waves.antt =====
-- `refresh` and `dispatch` of minifleet/scheduler.py keep the tasks proven.
use minifleet.Prelude.{
  ℕ, String, refl, inl, inr, ◌&&◌, Option, List, [], ◌∷◌, map, filter, is_empty, All, Bool-cases,
  Option-cases, if-both,
}
use minifleet.Model.{TaskState, Gate, Task, IntentSpec}
use minifleet.Scheduler.State.{Site, Fleet, is}
use minifleet.Scheduler.Wave.{
  merged_ids, may_start, promote, refresh_tasks, refresh, start_ready, equip, prepare, packets,
  dispatch, cut, exhausted, ready, is_room,
}
use minifleet.Scheduler.Integrate.{merged}
use minifleet.Scheduler.Steps.Tasks.{IsProven, IsSound}

module _ (s : Site) (gates : List Gate) where
  refresh_tasks-IsProven :
      (merged : List String) (ts : List Task)
      → All (IsProven s gates) ts
      → All (IsProven s gates) (map (promote merged) ts)
  refresh_tasks-IsProven merged [] h = tt
  refresh_tasks-IsProven merged (t ∷ ts) h = elim (Bool-cases (may_start merged t)) [
    | inl e ↦ rw e (inl refl, refresh_tasks-IsProven merged ts h.1)
    | inr e ↦ rw e (h.0, refresh_tasks-IsProven merged ts h.1)
  ]

  start_ready-IsProven :
      (now : ℕ) (ts : List Task) (room : Option ℕ)
      → All (IsProven s gates) ts
      → All (IsProven s gates) (start_ready now room ts)
  unfolding start_ready
  start_ready-IsProven now [] room h = tt
  start_ready-IsProven now (t ∷ ts) room h = (
    if-both (IsProven s gates) (is TaskState.ready t && is_room room) (inl refl) h.0,
    start_ready-IsProven now ts _ h.1,
  )

  prepare-IsProven :
      (base : String) (ts : List Task) (w : s.machine.World)
      → All (IsProven s gates) ts
      → All (IsProven s gates) (prepare s base ts w).0
  unfolding prepare
  prepare-IsProven base [] w h = tt
  prepare-IsProven base (t ∷ ts) w h = (
    if-both (λ (r : Task × s.machine.World). IsProven s gates r.0) (is TaskState.ready t) h.0 h.0,
    prepare-IsProven base ts (equip s base t w).1 h.1,
  )

module _ (s : Site) where
  pub refresh-IsSound : (f : Fleet s) → IsSound s f → IsSound s (refresh f)
  unfolding refresh refresh_tasks
  refresh-IsSound f h =
      let ts = f.design.tasks in
      let sound = refresh_tasks-IsProven s f.design.gates (merged_ids ts) ts h in
      if-both (IsSound s)
        (is_empty (map (λ (t : Task). t.id) (filter (may_start (merged_ids ts)) ts))) h sound

  pub packets-IsSound : (f : Fleet s) → IsSound s f → IsSound s (packets f)
  unfolding packets
  packets-IsSound f h =
      prepare-IsProven s (refresh f).design.gates _ (refresh f).design.tasks _ (refresh-IsSound f h)

  pub dispatch-IsSound :
      (name : String) (spec : IntentSpec) (limit : Option ℕ) (f : Fleet s)
      → IsSound s f
      → IsSound s (dispatch name spec limit f)
  unfolding dispatch
  dispatch-IsSound name spec limit f h = elim (Option-cases (exhausted spec f.run.events)) [
    | inr (budget, e) ↦ rw (dispatch, e) h
    | inl e ↦
        let sound = packets-IsSound f h in
        rw (dispatch, e)
          (if-both (IsSound s) (is_empty (cut limit (ready (packets f).design.tasks))) sound
            (start_ready-IsProven s (packets f).design.gates _ (packets f).design.tasks _ sound))
  ]
