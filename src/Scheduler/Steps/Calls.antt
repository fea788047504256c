-- ===== src/Scheduler/Steps/Calls.antt =====
-- The calls that drive `Scheduler` of minifleet/scheduler.py, in any order.
use minifleet.Prelude.{ℕ, String, Option, none, some, List, [], ◌∷◌, inl, inr, Option-cases}
use minifleet.Model.{IntentSpec}
use minifleet.Scheduler.State.{Site, Fleet}
use minifleet.Scheduler.Wave.{refresh, packets, dispatch}
use minifleet.Scheduler.Submit.{ingest}
use minifleet.Scheduler.Repair.{repair_failed}
use minifleet.Scheduler.Integrate.{integrate, verify}
use minifleet.Scheduler.Steps.Tasks.{IsSound}
use minifleet.Scheduler.Steps.Waves.{refresh-IsSound, packets-IsSound, dispatch-IsSound}
use minifleet.Scheduler.Steps.Repairs.{repair_failed-IsSound}
use minifleet.Scheduler.Steps.Merges.{integrate-IsSound, verify-IsSound}
use minifleet.Scheduler.Steps.Submits.{ingest-IsSound}

-- A public operation, with its arguments.
pub data Call : Type 0 where
  refresh_call packets_call integrate_call : Call
  dispatch_call : String → IntentSpec → Option ℕ → Call
  ingest_call : String → String → String → Option (List String) → Call
  repair_call verify_call : ℕ → Call

-- The KeyError of an unknown task comes before any change.
abbrev or_same : {s : Site} → Fleet s → Option (Fleet s) → Fleet s
or_same f none = f
or_same f (some g) = g

abbrev pub perform : (s : Site) → Call → Fleet s → Fleet s
perform s Call.refresh_call f = refresh f
perform s Call.packets_call f = packets f
perform s Call.integrate_call f = integrate f
perform s (Call.dispatch_call name spec limit) f = dispatch name spec limit f
perform s (Call.ingest_call id worker notes files) f = or_same f (ingest id worker notes files f)
perform s (Call.repair_call n) f = (repair_failed n f).fleet
perform s (Call.verify_call n) f = verify n f

abbrev pub perform_all : (s : Site) → List Call → Fleet s → Fleet s
perform_all s [] f = f
perform_all s (c ∷ cs) f = perform_all s cs (perform s c f)

perform-IsSound : (s : Site) (c : Call) (f : Fleet s) → IsSound s f → IsSound s (perform s c f)
perform-IsSound s Call.refresh_call f h = refresh-IsSound s f h
perform-IsSound s Call.packets_call f h = packets-IsSound s f h
perform-IsSound s Call.integrate_call f h = integrate-IsSound s f h
perform-IsSound s (Call.dispatch_call name spec limit) f h = dispatch-IsSound s name spec limit f h
perform-IsSound s (Call.ingest_call id worker notes files) f h =
    elim (Option-cases (ingest id worker notes files f)) [
      | inl e ↦ rw e h
      | inr (g, e) ↦ rw e (ingest-IsSound s id worker notes files f g e h)
    ]
perform-IsSound s (Call.repair_call n) f h = repair_failed-IsSound s n f h
perform-IsSound s (Call.verify_call n) f h = verify-IsSound s n f h

-- Whatever the order of the calls and whatever the site does: if every task that is verified or
-- merged has evidence that each of its own task gates passed, and wrote only files of its scope,
-- then the same holds after the calls.
pub perform_all-IsSound :
    (s : Site) (calls : List Call) (f : Fleet s) → IsSound s f → IsSound s (perform_all s calls f)
perform_all-IsSound s [] f h = h
perform_all-IsSound s (c ∷ cs) f h =
    perform_all-IsSound s cs (perform s c f) (perform-IsSound s c f h)
