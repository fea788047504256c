-- ===== src/Command/Taken.antt =====
-- The intake of the workers' results in minifleet/cli.py: it takes in every result for a task of
-- the fleet, and keeps the tasks proven.
use minifleet.Prelude.{
  String, ◌≡◌, refl, subst, inl, inr, true, none, some, List, [], ◌∷◌, ◌==◌, find, All, Bool-cases,
  Option-cases, arith, contains,
}
use minifleet.Model.{Task}
use minifleet.Scheduler.State.{Site, Fleet}
use minifleet.Scheduler.Submit.{handed_in, respond, changed_by, ingest, set_task}
use minifleet.Scheduler.Steps.Tasks.{IsProven, IsSound, All-update_first}
use minifleet.Scheduler.Steps.Submits.{ingest-IsSound}
use minifleet.Workers.{DispatchResult}
use minifleet.Command.{set_failed, fail_task, take_in, take_all}
use minifleet.Command.Kept.{ids, take_in-AreAlike}

module _ (s : Site) where
  -- a result for a task of the fleet is taken in
  found-task :
      (ts : List Task) (id : String)
      → contains (ids ts) id ≡ true
      → (t : Task) × (find (λ u. u.id == id) ts ≡ some t)
  found-task [] id h = absurd (ground arith)
  found-task (t ∷ ts) id h = elim (Bool-cases (t.id == id)) [
    | inl e ↦ (t, rw e refl)
    | inr e ↦ let (u, k) = found-task ts id (ground arith) in (u, rw e k)
  ]

  take_in_total :
      (r : DispatchResult) (f : Fleet s)
      → contains (ids f.design.tasks) r.task_id ≡ true
      → (g : Fleet s) × (take_in r f ≡ some g)
  unfolding take_in fail_task ingest
  take_in_total r f h =
      let (t, e) = found-task f.design.tasks r.task_id h in
      elim (Bool-cases (r.status == "submitted")) [
        | inl n ↦
            let u = handed_in s t in
            (respond u r.worker "" (changed_by u none f) f, rw (take_in, n, ingest, e) refl)
        | inr n ↦ (set_task (set_failed r.notes t) f, rw (take_in, n, fail_task, e) refl)
      ]

  pub take_all_total :
      (rs : List DispatchResult) (f : Fleet s)
      → All (λ r. contains (ids f.design.tasks) r.task_id ≡ true) rs
      → (g : Fleet s) × (take_all rs f ≡ some g)
  unfolding take_all
  take_all_total [] f h = (f, refl)
  take_all_total (r ∷ rs) f (k, h) =
      let (g, e) = take_in_total r f k in
      let (same, status) = take_in-AreAlike s r f g e in
      let (last, e2) = take_all_total rs g (rw same h) in (last, rw (take_all, e) e2)

  fail_task-IsSound :
      (r : DispatchResult) (f g : Fleet s) → fail_task r f ≡ some g → IsSound s f → IsSound s g
  unfolding fail_task
  fail_task-IsSound r f g e h = elim (Option-cases (find (λ t. t.id == r.task_id) f.design.tasks)) [
    | inl n ↦ let stuck : none ≡ some g = rw (fail_task, n) at e in absurd (ground (arith, stuck))
    | inr (t, n) ↦
        let same : some (set_task (set_failed r.notes t) f) ≡ some g = rw (fail_task, n) at e in
        let done : set_task (set_failed r.notes t) f ≡ g = cc in
        subst (IsSound s) done (
          All-update_first (IsProven s f.design.gates) (λ u. u.id == t.id) _ f.design.tasks
            (λ u p. inl refl) h)
  ]

  take_in-IsSound :
      (r : DispatchResult) (f g : Fleet s) → take_in r f ≡ some g → IsSound s f → IsSound s g
  unfolding take_in
  take_in-IsSound r f g e h = elim (Bool-cases (r.status == "submitted")) [
    | inl n ↦ ingest-IsSound s r.task_id r.worker "" none f g (rw (take_in, n) at e) h
    | inr n ↦ fail_task-IsSound r f g (rw (take_in, n) at e) h
  ]

  pub take_all-IsSound :
      (rs : List DispatchResult) (f g : Fleet s)
      → take_all rs f ≡ some g
      → IsSound s f
      → IsSound s g
  unfolding take_all
  take_all-IsSound [] f g e h = let same : f ≡ g = cc in subst (IsSound s) same h
  take_all-IsSound (r ∷ rs) f g e h = elim (Option-cases (take_in r f)) [
    | inl n ↦ let stuck : none ≡ some g = rw (take_all, n) at e in absurd (ground (arith, stuck))
    | inr (k, n) ↦ take_all-IsSound rs k g (rw (take_all, n) at e) (take_in-IsSound r f k n h)
  ]
