-- ===== src/Scheduler/Steps/Merges.antt =====
-- `integrate` and `verify` of minifleet/scheduler.py keep the tasks proven.
use minifleet.Prelude.{
  ℕ, String, ◌≡◌, sym, ◌∙◌, inl, inr, true, Option, none, some, List, [], ◌∷◌, is_empty, Bool-cases,
  Option-cases, if-both, arith,
}
use minifleet.Model.{TaskState, Gate, Task, passes}
use minifleet.Architect.Batches.{Plan, waves, design_error, topological_batches}
use minifleet.Scheduler.State.{Site, Done, done, failed, Fleet, is, system_gates, with_world}
use minifleet.Scheduler.Submit.{judged, found}
use minifleet.Scheduler.Integrate.{
  merged, has_id, find_last, Merging, record_merge, unless_error, merge_plan, merge_all, settle,
  merge_waves, integrate, verify, conflicts_of, begin, merge_verified, measure, budgets_last,
  required_ids,
}
use minifleet.Scheduler.Steps.Tasks.{IsProven, IsSound, All-update_last}
use minifleet.Scheduler.Steps.Waves.{refresh-IsSound}
use minifleet.Scheduler.Steps.Repairs.{attribute_failures-IsSound}

module _ (s : Site) where
  merged-IsProven :
      (gates : List Gate) (t : Task)
      → is TaskState.verified t ≡ true
      → IsProven s gates t
      → IsProven s gates (merged t)
  merged-IsProven gates t v (inl p) = absurd (ground arith)
  merged-IsProven gates t v (inr p) = inr p

  record_merge-IsSound :
      (id : String) (t : Task) (f : Fleet s) (d : Done s.machine.World)
      → find_last (has_id id) f.design.tasks ≡ some t
      → is TaskState.verified t ≡ true
      → IsSound s f
      → IsSound s (record_merge id t f d).fleet
  record_merge-IsSound id t f (failed e w) found v h = h
  record_merge-IsSound id t f (done w) found v h =
      All-update_last (IsProven s f.design.gates) (has_id id) merged f.design.tasks
        (λ x e p.
          let both : some x ≡ some t = sym e ∙ found in
          let same : x ≡ t = cc in merged-IsProven f.design.gates x (rw same v) p)
        h

  unless_error-IsSound :
      (e : Option String) (m rest : Merging s)
      → IsSound s m.fleet
      → IsSound s rest.fleet
      → IsSound s (unless_error e m rest).fleet
  unless_error-IsSound none m rest h k = k
  unless_error-IsSound (some e) m rest h k = h

  merge_all-IsSound :
      (ids : List String) (f : Fleet s) → IsSound s f → IsSound s (merge_all ids f).fleet
  unfolding merge_all
  merge_all-IsSound [] f h = h
  merge_all-IsSound (id ∷ ids) f h = elim (Option-cases (find_last (has_id id) f.design.tasks)) [
    | inl e ↦ rw (merge_all, e) (merge_all-IsSound ids f h)
    | inr (t, e) ↦
        let d = s.merge f.lab.world t in
        let m = record_merge id t f d in
        elim (Bool-cases (is TaskState.verified t)) [
          | inr n ↦ rw (merge_all, e, n) (merge_all-IsSound ids f h)
          | inl v ↦
              let sound = record_merge-IsSound id t f d e v h in
              rw (merge_all, e, v)
                (unless_error-IsSound m.error m (merge_all ids m.fleet) sound
                  (merge_all-IsSound ids m.fleet sound))
        ]
  ]

  settle-IsSound : (e : Option String) (f : Fleet s) → IsSound s f → IsSound s (settle e f)
  settle-IsSound none f h = refresh-IsSound s f h
  settle-IsSound (some e) f h = h

  merge_plan-IsSound :
      (p : Option Plan) (f : Fleet s) → IsSound s f → IsSound s (merge_plan p f).fleet
  merge_plan-IsSound none f h = h
  merge_plan-IsSound (some (design_error left)) f h = h
  merge_plan-IsSound (some (waves ws)) f h = merge_all-IsSound _ f h

  merge_waves-IsSound :
      (d : Done s.machine.World) (f : Fleet s) → IsSound s f → IsSound s (merge_waves d f).fleet
  merge_waves-IsSound (failed e w) f h = h
  merge_waves-IsSound (done w) f h =
      merge_plan-IsSound (topological_batches f.design.tasks) (with_world w f) h

  merge_verified-IsSound : (f : Fleet s) → IsSound s f → IsSound s (merge_verified f)
  merge_verified-IsSound f h =
      let d = s.checkout f.lab.world f.run.integration_branch in
      let m = merge_waves d f in settle-IsSound m.error m.fleet (merge_waves-IsSound d f h)

  pub integrate-IsSound : (f : Fleet s) → IsSound s f → IsSound s (integrate f)
  unfolding integrate
  integrate-IsSound f h =
      if-both (IsSound s) (is_empty (conflicts_of (begin f))) (merge_verified-IsSound (begin f) h) h

  measure-IsSound : (f : Fleet s) → IsSound s f → IsSound s (measure f).1
  unfolding measure
  measure-IsSound f h = h

  pub verify-IsSound : (n : ℕ) (f : Fleet s) → IsSound s f → IsSound s (verify n f)
  unfolding verify
  verify-IsSound n f h =
      let (evidence, judged) = measure f in
      let required = required_ids (budgets_last (system_gates judged.design.gates)) in
      let sound = measure-IsSound f h in
      if-both (IsSound s) (passes judged.run.verdict) sound
        (attribute_failures-IsSound s n (some required) evidence judged sound)
