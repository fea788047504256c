-- ===== src/Scheduler/Repair.antt =====
-- `attribute_failures` and `repair_failed` of minifleet/scheduler.py: failed work gets its next attempt.
use Prim.Native.String.{◌++◌ as append}
use minifleet.Prelude.{
  ℕ, String, Bool, not, ◌&&◌, Option, none, some, List, [], ◌∷◌, ◌++◌, map, ◌==◌, if◌then◌else◌,
  filter, find, contains, is_empty, dedup, sort_by, str_le,
}
use minifleet.Model.{
  TaskState, system_gate_failed, Evidence, Task, Run, Event, is_set, passes, eq_verdict,
}
use minifleet.Gates.Verdicts.{by_gate}
use minifleet.Scheduler.State.{Site, Fleet, is, update_first, tell, with_tasks, with_world}
use minifleet.Scheduler.Submit.{found, packet_of, is_pass}
use minifleet.Scheduler.Wave.{refresh}

-- `sorted(set(xs))`
abbrev pub sorted_set : List String → List String
sorted_set xs = sort_by str_le (dedup xs)

-- The lists that the two functions return, with the scheduler.
pub record Outcome (s : Site) : Type 0 where
  pub fleet : Fleet s
  pub reopened : List String
  pub escalated : List String
  pub unattributed : List String

abbrev pub in_component : String → Task → Bool
in_component c t = t.component_id == c

-- a task that a red system gate points at
abbrev pub blamed : Evidence → Task → Task
blamed item t = record t {
  evidence = filter (λ e. not (e.gate_id == item.gate_id)) t.evidence ++ item ∷ [];
  state = TaskState.failed;
  notes = system_gate_failed item.gate_id item.detail;
  worktree = "";
}

abbrev pub reopen : Task → Task
reopen t = record t { state = TaskState.pending }

-- `if task.worktree: remove_worktree`
abbrev pub retire : (s : Site) → Task → s.machine.World → s.machine.World
retire s t w = if t.worktree == "" then w else s.remove_worktree w t.worktree

abbrev pub counts : Option (List String) → Evidence → Bool
counts none item = not (is_pass item)
counts (some required) item = not (is_pass item) && contains required item.gate_id

-- the red rows among the latest evidence of each gate
abbrev pub red_rows : List Evidence → List Evidence
red_rows evidence = filter (λ e. not (is_pass e)) (map (λ e. e.1) (by_gate [] evidence))

abbrev pub needs_attribution : Run → Bool
needs_attribution r =
    is_set r.verdict && not (passes r.verdict) && not (eq_verdict r.verdict r.attributed_verdict)

module _ {s : Site} where
  abbrev pub no_owner : String → Outcome s → Outcome s
  no_owner name o = record o { unattributed = o.unattributed ++ name ∷ [] }

  -- the body of the loop over the components, for the task of the component
  unfoldable pub blame : ℕ → Evidence → String → Task → Outcome s → Outcome s
  blame max_attempts item c t o =
      let f = o.fleet in
      let ts = update_first (in_component c) (blamed item) f.design.tasks in
      let packet = packet_of max_attempts (found ts (blamed item t)) in
      let w = s.write_brief (retire s t f.lab.world) packet in
      let after = if packet.escalate then ts else update_first (in_component c) reopen ts in
      let event = Event.attributed item.gate_id t.id t.attempts packet.escalate in
      record o {
        fleet = tell event (with_world w (with_tasks after f));
        escalated = if packet.escalate then o.escalated ++ t.id ∷ [] else o.escalated;
        reopened = if packet.escalate then o.reopened else o.reopened ++ t.id ∷ [];
      }

  unfoldable pub blame_all : ℕ → Evidence → List String → Outcome s → Outcome s
  unfolding blame
  blame_all max_attempts item [] o = o
  blame_all max_attempts item (c ∷ cs) o =
      blame_all max_attempts item cs (elim (find (in_component c) o.fleet.design.tasks) [
        | none ↦ no_owner (append item.gate_id (append "->" c)) o
        | some t ↦ blame max_attempts item c t o
      ])

  -- the targets of one item of evidence
  unfoldable pub trace : ℕ → Evidence → Outcome s → Outcome s
  unfolding blame_all
  trace max_attempts item o = elim (find (λ g. g.id == item.gate_id) o.fleet.design.gates) [
    | none ↦ no_owner item.gate_id o
    | some g ↦
        if is_empty g.attributed_to
        then no_owner item.gate_id o
        else blame_all max_attempts item g.attributed_to o
  ]

  unfoldable pub trace_all : ℕ → Option (List String) → List Evidence → Outcome s → Outcome s
  unfolding trace
  trace_all max_attempts required [] o = o
  trace_all max_attempts required (item ∷ items) o =
      trace_all max_attempts required items
        (if counts required item then trace max_attempts item o else o)

  abbrev pub report_unattributed : Outcome s → Fleet s
  report_unattributed o =
      if is_empty o.unattributed
      then o.fleet
      else tell (Event.unattributed (sorted_set o.unattributed)) o.fleet

  unfoldable pub attribute_failures : ℕ → Option (List String) → List Evidence → Fleet s → Outcome s
  unfolding trace_all refresh
  attribute_failures max_attempts required items f =
      let o =
        trace_all max_attempts required items
          (record { fleet = f; reopened = []; escalated = []; unattributed = [] }) in
      record {
        fleet = refresh (report_unattributed o);
        reopened = sorted_set o.reopened;
        escalated = sorted_set o.escalated;
        unattributed = sorted_set o.unattributed;
      }

  -- an outcome that has nothing to tell
  abbrev pub quiet : Fleet s → Outcome s
  quiet f = record { fleet = f; reopened = []; escalated = []; unattributed = [] }

  abbrev pub escalate_task : Task → Fleet s → Outcome s → Outcome s
  escalate_task t f o = record o {
    fleet = tell (Event.escalated t.id t.attempts) f;
    escalated = o.escalated ++ t.id ∷ [];
  }

  abbrev pub reopen_task : Task → Fleet s → Outcome s → Outcome s
  reopen_task t f o = record o {
    fleet = tell (Event.reopened t.id t.attempts) f;
    reopened = o.reopened ++ t.id ∷ [];
  }

  -- one turn of the loop of `repair_failed`, with the tasks before and behind this one
  unfoldable pub reopen_one : ℕ → List Task → Task → List Task → Outcome s → Task × Outcome s
  reopen_one max_attempts before t ts o =
      let bare = record t { worktree = "" } in
      let packet = packet_of max_attempts (found (before ++ bare ∷ ts) bare) in
      let f = with_world (s.write_brief (retire s t o.fleet.lab.world) packet) o.fleet in
      if is TaskState.failed t
      then (if packet.escalate
          then (bare, escalate_task t f o)
          else (reopen bare, reopen_task t f o))
      else (t, o)

  unfoldable pub reopen_all : ℕ → List Task → List Task → Outcome s → Outcome s
  unfolding reopen_one
  reopen_all max_attempts before [] o = record o { fleet = with_tasks before o.fleet }
  reopen_all max_attempts before (t ∷ ts) o =
      let (next, after) = reopen_one max_attempts before t ts o in
      reopen_all max_attempts (before ++ next ∷ []) ts after

  -- the second half of `repair_failed`
  unfoldable pub attribute_latest : ℕ → Fleet s → Outcome s
  unfolding attribute_failures
  attribute_latest max_attempts f =
      let failing = red_rows f.run.evidence in
      if needs_attribution f.run && not (is_empty failing)
      then attribute_failures max_attempts none failing f
      else quiet f

  unfoldable pub repair_failed : ℕ → Fleet s → Outcome s
  unfolding reopen_all attribute_latest
  repair_failed max_attempts f =
      let o = reopen_all max_attempts [] f.design.tasks (quiet f) in
      let more = attribute_latest max_attempts o.fleet in
      record {
        fleet = refresh more.fleet;
        reopened = sorted_set (o.reopened ++ more.reopened);
        escalated = sorted_set (o.escalated ++ more.escalated);
        unattributed = more.unattributed;
      }
