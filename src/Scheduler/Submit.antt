-- ===== src/Scheduler/Submit.antt =====
-- `write_repair_packet` and `ingest` of minifleet/scheduler.py: a worker's output becomes evidence.
use minifleet.Prelude.{
  ℕ, suc, String, Bool, not, Option, none, some, List, [], ◌++◌, map, ◌==◌, if◌then◌else◌, filter,
  find, all, is_empty, sort_by, str_le,
}
use minifleet.Model.{TaskState, outside_scope, Evidence, Task, Event}
use minifleet.RepairPacket.{Packet, build_repair_packet, row}
use minifleet.Scheduler.Scope.{within}
use minifleet.Scheduler.State.{
  Site, Fleet, task_gates, update_first, statuses, tell, with_tasks, with_world, run_all,
}

-- the first task with the id; no caller passes an id that no task has
abbrev pub found : List Task → Task → Task
found ts t = elim (find (λ u. u.id == t.id) ts) [ none ↦ t | some u ↦ u ]

-- the packet of `write_repair_packet`
abbrev pub packet_of : ℕ → Task → Packet
packet_of max_attempts t = build_repair_packet t (map row t.evidence) t.attempts max_attempts

abbrev pub is_pass : Evidence → Bool
is_pass e = e.status == "pass"

abbrev pub set_task : {s : Site} → Task → Fleet s → Fleet s
set_task t f = with_tasks (update_first (λ u. u.id == t.id) (λ u. t) f.design.tasks) f

-- a task that a worker has handed in, with the sandbox that it used
abbrev pub handed_in : Site → Task → Task
handed_in s t = record t {
  worktree = if t.worktree == "" then s.sandbox t.component_id else t.worktree;
  attempts = suc t.attempts;
}

-- the evidence of a task's own gates, and the state that it gives
abbrev pub judged : ℕ → List Evidence → Task → Task
judged now evidence t = record t {
  evidence = evidence;
  state = if all is_pass evidence then TaskState.verified else TaskState.failed;
  finished_at = some now;
}

-- the files that a task does not own
abbrev pub outside_of : Site → Task → List String → List String
outside_of s t changed = filter (λ p. not (within s.fnmatch p t.owns)) changed

module _ {s : Site} where
  -- the branch of `ingest` where the worker wrote outside its scope
  abbrev pub refuse : Task → List String → Fleet s → Fleet s
  refuse t outside f =
      tell (Event.scope_violation t.id outside)
        (set_task (record t { state = TaskState.failed; notes = outside_scope outside }) f)

  -- the commit of the worker's files
  abbrev pub submit : Task → String → String → List String → Fleet s → Task × Fleet s
  submit t worker notes changed f =
      let files = sort_by str_le changed in
      let (sha, w) = s.commit_all f.lab.world t.worktree t in
      (
        record t { submitted_files = files; state = TaskState.submitted },
        tell (Event.submitted t.id worker files sha notes) (with_world w f),
      )

  -- what the fleet keeps of the evidence
  abbrev pub keep : Task → List Evidence → Fleet s → Fleet s
  keep t evidence f = record (set_task t f) {
    run = record f.run { evidence = f.run.evidence ++ evidence };
  }

  -- the verdict on a task, told; a failure gets its brief
  abbrev pub conclude : Task → List Evidence → Fleet s → Fleet s
  conclude t evidence f =
      let gates = statuses [] evidence in
      let packet = packet_of 3 t in
      if all is_pass evidence
      then tell (Event.task_verified t.id gates) f
      else tell (Event.repair_packet t.id t.attempts packet.escalate)
          (with_world (s.write_brief f.lab.world packet) (tell (Event.task_failed t.id gates) f))

  -- the branch of `ingest` that commits and runs the gates
  unfoldable pub accept : Task → String → String → List String → Fleet s → Fleet s
  unfolding run_all
  accept t worker notes changed f =
      let (sent, f1) = submit t worker notes changed f in
      let (evidence, lab) =
        run_all s sent.worktree (task_gates f1.design.gates sent) sent.id f1.lab in
      let judged_task = judged (s.clock lab.world) evidence sent in
      conclude judged_task evidence (keep judged_task evidence (record f1 { lab = lab }))

  abbrev pub changed_by : Task → Option (List String) → Fleet s → List String
  changed_by t (some given) f = given
  changed_by t none f = s.changed_files f.lab.world t.worktree "HEAD"

  abbrev pub respond : Task → String → String → List String → Fleet s → Fleet s
  respond t worker notes changed f =
      if is_empty (outside_of s t changed)
      then accept t worker notes changed f
      else refuse t (outside_of s t changed) f

  -- `none` is the KeyError of an unknown task.
  unfoldable pub ingest :
      String → String → String → Option (List String) → Fleet s → Option (Fleet s)
  unfolding accept within
  ingest id worker notes files f = elim (find (λ t. t.id == id) f.design.tasks) [
    | none ↦ none
    | some u ↦ let t = handed_in s u in some (respond t worker notes (changed_by t files f) f)
  ]
