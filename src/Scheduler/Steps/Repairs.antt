-- ===== src/Scheduler/Steps/Repairs.antt =====
-- `attribute_failures` and `repair_failed` of minifleet/scheduler.py keep the tasks proven.
use minifleet.Prelude.{
  ℕ, String, refl, inl, inr, not, ◌&&◌, Option, none, List, [], ◌∷◌, ◌++◌, ◌==◌, find, is_empty,
  All, All-append, Option-cases, if-both,
}
use minifleet.Model.{TaskState, Evidence, Task}
use minifleet.Scheduler.State.{Site, Fleet, is}
use minifleet.Scheduler.Submit.{found, packet_of}
use minifleet.Scheduler.Repair.{
  Outcome, blamed, reopen, in_component, blame, blame_all, trace, counts, trace_all,
  report_unattributed, attribute_failures, quiet, reopen_one, reopen_all, red_rows,
  needs_attribution, attribute_latest, repair_failed,
}
use minifleet.Scheduler.Steps.Tasks.{IsProven, IsSound, All-update_first}
use minifleet.Scheduler.Steps.Waves.{refresh-IsSound}

module _ (s : Site) where
  blame-IsSound :
      (n : ℕ) (item : Evidence) (c : String) (t : Task) (o : Outcome s)
      → IsSound s o.fleet
      → IsSound s (blame n item c t o).fleet
  unfolding blame
  blame-IsSound n item c t o h =
      let P = IsProven s o.fleet.design.gates in
      let k =
        All-update_first P (in_component c) (blamed item) o.fleet.design.tasks (λ t p. inl refl)
          h in
      if-both (All P) (packet_of n (found _ (blamed item t))).escalate k
        (All-update_first P (in_component c) reopen _ (λ t p. inl refl) k)

  blame_all-IsSound :
      (n : ℕ) (item : Evidence) (cs : List String) (o : Outcome s)
      → IsSound s o.fleet
      → IsSound s (blame_all n item cs o).fleet
  unfolding blame_all
  blame_all-IsSound n item [] o h = h
  blame_all-IsSound n item (c ∷ cs) o h =
      elim (Option-cases (find (in_component c) o.fleet.design.tasks)) [
        | inl e ↦ rw (blame_all, e) (blame_all-IsSound n item cs _ h)
        | inr (t, e) ↦
            rw (blame_all, e) (blame_all-IsSound n item cs _ (blame-IsSound n item c t o h))
      ]

  trace-IsSound :
      (n : ℕ) (item : Evidence) (o : Outcome s)
      → IsSound s o.fleet
      → IsSound s (trace n item o).fleet
  unfolding trace
  trace-IsSound n item o h =
      elim (Option-cases (find (λ g. g.id == item.gate_id) o.fleet.design.gates)) [
        | inl e ↦ rw (trace, e) h
        | inr (g, e) ↦
            rw (trace, e)
              (if-both (λ (r : Outcome s). IsSound s r.fleet) (is_empty g.attributed_to) h
                (blame_all-IsSound n item g.attributed_to o h))
      ]

  trace_all-IsSound :
      (n : ℕ) (required : Option (List String)) (items : List Evidence) (o : Outcome s)
      → IsSound s o.fleet
      → IsSound s (trace_all n required items o).fleet
  unfolding trace_all
  trace_all-IsSound n required [] o h = h
  trace_all-IsSound n required (item ∷ items) o h = trace_all-IsSound n required items _ (
      if-both (λ (r : Outcome s). IsSound s r.fleet) (counts required item)
        (trace-IsSound n item o h) h)

  pub attribute_failures-IsSound :
      (n : ℕ) (required : Option (List String)) (items : List Evidence) (f : Fleet s)
      → IsSound s f
      → IsSound s (attribute_failures n required items f).fleet
  unfolding attribute_failures
  attribute_failures-IsSound n required items f h =
      let o =
        trace_all n required items
          (record { fleet = f; reopened = []; escalated = []; unattributed = [] }) in
      let k = trace_all-IsSound n required items _ h in
      refresh-IsSound s (report_unattributed o) (if-both (IsSound s) (is_empty o.unattributed) k k)

  reopen_one-IsProven :
      (n : ℕ) (before : List Task) (t : Task) (ts : List Task) (o : Outcome s)
      → All (IsProven s o.fleet.design.gates) before
      → All (IsProven s o.fleet.design.gates) (t ∷ ts)
      → All (IsProven s (reopen_one n before t ts o).1.fleet.design.gates) before
        × IsProven s
            (reopen_one n before t ts o).1.fleet.design.gates
            (reopen_one n before t ts o).0
        × All (IsProven s (reopen_one n before t ts o).1.fleet.design.gates) ts
  unfolding reopen_one
  reopen_one-IsProven n before t ts o h k =
      let M = λ (r : Task × Outcome s).
        All (IsProven s r.1.fleet.design.gates) before
        × IsProven s r.1.fleet.design.gates r.0
        × All (IsProven s r.1.fleet.design.gates) ts in
      let bare = record t { worktree = "" } in
      let packet = packet_of n (found (before ++ bare ∷ ts) bare) in
      if-both M (is TaskState.failed t) (if-both M packet.escalate (h, k.0, k.1) (h, inl refl, k.1))
        (h, k.0, k.1)

  reopen_all-IsSound :
      (n : ℕ) (before ts : List Task) (o : Outcome s)
      → All (IsProven s o.fleet.design.gates) before
      → All (IsProven s o.fleet.design.gates) ts
      → IsSound s (reopen_all n before ts o).fleet
  unfolding reopen_all
  reopen_all-IsSound n before [] o h k = h
  reopen_all-IsSound n before (t ∷ ts) o h k =
      let (next, after) = reopen_one n before t ts o in
      let (h', p, k') = reopen_one-IsProven n before t ts o h k in
      let P = IsProven s after.fleet.design.gates in
      reopen_all-IsSound n (before ++ next ∷ []) ts after
        (All-append P before (next ∷ []) h' (p, tt)) k'

  attribute_latest-IsSound :
      (n : ℕ) (f : Fleet s) → IsSound s f → IsSound s (attribute_latest n f).fleet
  unfolding attribute_latest
  attribute_latest-IsSound n f h =
      let failing = red_rows f.run.evidence in
      if-both (λ (o : Outcome s). IsSound s o.fleet)
        (needs_attribution f.run && not (is_empty failing))
        (attribute_failures-IsSound n none failing f h) h

  pub repair_failed-IsSound :
      (n : ℕ) (f : Fleet s) → IsSound s f → IsSound s (repair_failed n f).fleet
  unfolding repair_failed
  repair_failed-IsSound n f h =
      let o = reopen_all n [] f.design.tasks (quiet f) in
      refresh-IsSound s (attribute_latest n o.fleet).fleet
        (attribute_latest-IsSound n o.fleet (reopen_all-IsSound n [] f.design.tasks (quiet f) tt h))
