-- ===== src/Tests/Commands.antt =====
-- The workers and the commands that drive a run, at the inputs.
use minifleet.Prelude.{
  ℕ, String, ◌≡◌, refl, ◌⊎◌, inl, inr, Bool, true, false, Option, none, some, [], ◌∷◌, ◌==◌, All,
  sort_by, str_le,
}
use minifleet.Model.{pos, Value, end, field, object, TaskState, Event, Task}
use minifleet.Gates.Output.{parse_metrics, read_lines, splitlines}
use minifleet.Gates.Runner.{run, judge_cmd}
use minifleet.Gates.Verdicts.{by_gate, verdict, IsGreen}
use minifleet.Scheduler.Scope.{within, ends_slash, rstrip_slash}
use minifleet.Scheduler.Ownership.{ownership_conflicts, claim_branches, claim_all}
use minifleet.Architect.Batches.{topological_batches, add_by_id, batches, due, without}
use minifleet.Scheduler.Submit.{ingest, accept}
use minifleet.Scheduler.Repair.{attribute_failures}
use minifleet.Scheduler.State.{is, run_all, system_gates, Fleet, tell}
use minifleet.Scheduler.Wave.{
  dispatch, packets, refresh, refresh_tasks, prepare, start_ready, exhausted, used, ready,
}
use minifleet.Scheduler.Integrate.{
  budgets_last, required_ids, measure, verify, integrate, merge_all, retire_all,
}
use minifleet.Scheduler.Steps.Tasks.{IsSound}
use minifleet.Workers.{
  Packet, DispatchResult, command_dispatcher, Bench, build_packet, make_dispatcher, after_colon,
}
use minifleet.Workers.Runtime.{
  Runtime, broken, payload, dispatch_to, dispatch_command, result_from_payload,
}
use minifleet.Workers.Answers.{IsAnswer, dispatch_to-IsAnswer}
use minifleet.Command.{answered, Crew, dispatched, take_all, take_in}
use minifleet.Command.Autopilot.{
  Arguments, autopilot, pilot, limited, fly, rounds_from, round, work_round, integrate_round,
  integrates, verify_round,
}
use minifleet.Command.Autopilot.Sound.{autopilot-IsSound}
use minifleet.Command.Autopilot.Green.{autopilot-IsGreen}
use minifleet.Command.OneShot.{drive}
use minifleet.Command.OneShot.Wave.{drive-first_wave}
use minifleet.Tests.Data.{intent, site, task, fleet}

abbrev bench : Bench
bench = record {
  run_id = "run";
  product_dir = "product";
  worktree = "worktrees/core";
  integration_branch = "main";
  base_commit = "base";
}

abbrev core : Task
core = task "core" ("src/" ∷ []) []

abbrev packet : Packet
packet = build_packet bench core fleet.design intent

-- The command writes a result file; the world counts the calls.
abbrev runtime : Runtime
runtime = record {
  World = ℕ;
  packet_path = λ p. p.task.id;
  invoke = λ command p w. ((pos 0, ""), ℕ.suc w);
  result_file = λ p w. payload (object (field "status" (Value.text "submitted") end));
  chat = λ e p w. (broken "no route", w);
  loads = λ content. broken "no JSON";
  mismatch = λ v. "KeyError";
  write_text = λ path content w. ℕ.suc w;
  decimal = λ n. "0";
  str = λ v. "None";
}

abbrev reported : DispatchResult
reported = record {
  task_id = "core";
  status = "submitted";
  worker = "agent";
  files = [];
  notes = "";
  commands = [];
  raw = object (field "status" (Value.text "submitted") end);
}

report-submitted : dispatch_to runtime (command_dispatcher "agent") packet 0 ≡ some (reported, 1)
unfolding dispatch_to dispatch_command result_from_payload build_packet
report-submitted = refl

dispatch_to-IsAnswer_example : IsAnswer runtime packet (command_dispatcher "agent") 0 reported 1
dispatch_to-IsAnswer_example =
    dispatch_to-IsAnswer runtime (command_dispatcher "agent") packet 0 1 reported report-submitted

-- Every worker submits, and no time passes.
abbrev crew : Crew site
crew = record {
  answer = λ w id. some (record reported { task_id = id });
  is_late = λ budget started now. false;
}

abbrev arguments : Arguments
arguments = record {
  environ = λ name. none;
  dispatcher = "command:agent";
  max_attempts = 3;
  max_rounds = 5;
}

program : Unit {0}
unfolding dispatch packets refresh refresh_tasks prepare start_ready exhausted used ingest accept
    within run_all run judge_cmd integrate merge_all ownership_conflicts topological_batches
    add_by_id batches due without sort_by str_le verify measure budgets_last verdict by_gate
    retire_all attribute_failures parse_metrics claim_branches claim_all ends_slash rstrip_slash
    read_lines splitlines autopilot pilot limited fly rounds_from round work_round integrate_round
    answered integrates verify_round dispatched take_all take_in make_dispatcher after_colon
program = tt

abbrev fleet_of : Option (ℕ × Fleet site) → Fleet site
fleet_of none = fleet
fleet_of (some (code, f)) = f

abbrev flown : Fleet site
flown = fleet_of (autopilot crew arguments intent fleet)

autopilot-zero : autopilot crew arguments intent fleet ≡ some (0, flown)
unfolding program
autopilot-zero = refl

autopilot-IsSound_example : IsSound site flown
autopilot-IsSound_example =
    autopilot-IsSound site crew arguments intent fleet flown 0 autopilot-zero
      (inl refl, (inl refl, tt))

autopilot-IsGreen_example :
    (n : ℕ) × (h : Fleet site) × (e : Event) × (flown ≡ tell e (verify n h))
    × All (IsGreen (measure h).0) (required_ids (budgets_last (system_gates h.design.gates)))
autopilot-IsGreen_example =
    autopilot-IsGreen site crew arguments intent fleet flown refl autopilot-zero

abbrev starts : String → Bool
starts id = id == "core"

budget-left : exhausted intent (refresh fleet).run.events ≡ none
unfolding program
budget-left = refl

drive-first_wave_example :
    (g : Fleet site) × (drive (λ w path. true) "command" intent 1 fleet ≡ some g)
    × (ready g.design.tasks ≡ [])
    × All (λ t. (t.depends_on ≡ []) ⊎ (is TaskState.pending t ≡ true)) g.design.tasks
drive-first_wave_example =
    drive-first_wave starts site (λ w path. true) "command" intent 0 fleet
      ((refl, refl, inl refl), ((refl, refl, inr refl), tt)) budget-left
