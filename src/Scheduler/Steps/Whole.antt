-- ===== src/Scheduler/Steps/Whole.antt =====
-- From `design` of minifleet/architect.py to any calls of minifleet/scheduler.py.
use minifleet.Prelude.{◌≡◌, refl, Option, List, All, All-mono, inl}
use mathlib.Core.Path.{subst}
use minifleet.Model.{Contract, IntentSpec, Gate, Task, Design}
use minifleet.Architect.Review.{ok, design}
use minifleet.Architect.Review.Waiting.{Waits}
use minifleet.Architect.Review.Promises.{design-Waits}
use minifleet.Scheduler.State.{Site, Fleet}
use minifleet.Scheduler.Steps.Tasks.{IsProven, IsSound}
use minifleet.Scheduler.Steps.Calls.{Call, perform_all, perform_all-IsSound}

IsProven-Waits : (s : Site) (gates : List Gate) (t : Task) → Waits t → IsProven s gates t
IsProven-Waits s gates t (v, m) = inl (rw (v, m) refl)

-- For a fleet that begins with a design that `design` admits: after any calls of the scheduler, in
-- any order and whatever the site does, every task that is verified or merged has evidence that each
-- of its own task gates passed, and wrote only files of its scope.
pub design-perform_all-IsSound :
    (factory : Option (IntentSpec → List Contract)) (spec : IntentSpec) (plan : Design)
    (spec' : IntentSpec) (s : Site) (calls : List Call) (f : Fleet s)
    → design factory spec ≡ ok plan spec'
    → plan ≡ f.design
    → IsSound s (perform_all s calls f)
design-perform_all-IsSound factory spec plan spec' s calls f h e = perform_all-IsSound s calls f (
    subst (λ (p : Design). All (IsProven s p.gates) p.tasks) e
      (All-mono plan.tasks (IsProven-Waits s plan.gates) (design-Waits factory spec h)))
