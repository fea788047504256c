-- ===== src/Tests/Runs.antt =====
-- The gates, the repair packets and the scheduler at the inputs.

use minifleet.Prelude.{
  Dict, String, inr, ◌≡◌, refl, ◌↔◌, ◌⊎◌, inl, true, ◌≤◌, none, some, List, [], ◌∷◌, Has, All,
  sort_by, str_le, all, ◌==◌,
}
use minifleet.Model.{Verdict, RunStatus, TaskState, Gate, Evidence, Task}
use minifleet.Gates.Output.{parse_metrics, read_lines, splitlines}
use minifleet.Gates.Runner.{run, judge_cmd}
use minifleet.Gates.Verdicts.{by_gate, verdict, IsGreen, verdict-green_iff}
use minifleet.RepairPacket.{Row, or_empty, Instruction, failure, build_repair_packet, row}
use minifleet.RepairPacket.Bounded.{build_repair_packet_brief}
use minifleet.Scheduler.Scope.{within, ends_slash, rstrip_slash}
use minifleet.Scheduler.Ownership.Single.{ownership_conflicts-nil}
use minifleet.Scheduler.Ownership.{ownership_conflicts, claim_branches, claim_all}
use minifleet.Architect.Batches.{topological_batches, add_by_id, batches, due, without}
use minifleet.Scheduler.Submit.{ingest, accept}
use minifleet.Scheduler.Repair.{attribute_failures}
use minifleet.Scheduler.State.{is, run_all, system_gates}
use minifleet.Scheduler.Wave.{
  dispatch, packets, refresh, refresh_tasks, prepare, start_ready, exhausted, used,
}
use minifleet.Scheduler.Integrate.{
  budgets_last, required_ids, measure, verify, merged, integrate, merge_all, retire_all,
}
use minifleet.Scheduler.Verified.{verify-passed_iff}
use minifleet.Scheduler.Steps.Tasks.{IsSound}
use minifleet.Scheduler.Steps.Calls.{Call, perform_all, perform_all-IsSound}
use minifleet.Tests.Data.{intent, site, task, fleet, gate, evidence}

abbrev history : List Evidence
history = evidence "G-a" "fail" ∷ evidence "G-b" "pass" ∷ evidence "G-a" "pass" ∷ []

verdict-green_iff_example :
    (verdict history ("G-a" ∷ "G-b" ∷ []) ≡ Verdict.green)
    ↔ All (IsGreen history) ("G-a" ∷ "G-b" ∷ [])
verdict-green_iff_example = verdict-green_iff history ("G-a" ∷ "G-b" ∷ [])

abbrev red_row : Row
red_row = row (evidence "G-a" "fail")

abbrev core : Task
core = task "core" ("src/" ∷ []) []

build_repair_packet_brief_example :
    (((build_repair_packet core (red_row ∷ []) 3 3).escalate ≡ true) ↔ (3 ≤ 3))
    × All
        (λ r.
          ((or_empty r.status == "pass") ≡ true)
          ⊎ (Has (Instruction.fix (failure r)) (build_repair_packet core (red_row ∷ []) 3 3).steps
              × Has
                  (Instruction.rerun (failure r).gate_id)
                  (build_repair_packet core (red_row ∷ []) 3 3).steps))
        (red_row ∷ [])
build_repair_packet_brief_example = build_repair_packet_brief core (red_row ∷ []) 3 3

abbrev half_merged : List Task
half_merged = merged core ∷ task "api" ("api/" ∷ []) ("core" ∷ []) ∷ []

abbrev two_gates : List Gate
two_gates = gate "G-size" "budget" "system" ∷ gate "G-all" "cmd" "system" ∷ []

verify-passed_iff_example :
    (((verify 3 fleet).run.status ≡ RunStatus.passed)
      ↔ All
          (IsGreen (measure fleet).0)
          (required_ids (budgets_last (system_gates fleet.design.gates))))
    × (((verify 3 fleet).run.status ≡ RunStatus.passed)
        ⊎ ((verify 3 fleet).run.status ≡ RunStatus.failed))
verify-passed_iff_example = verify-passed_iff site 3 fleet

abbrev calls : List Call
calls =
    Call.dispatch_call "local" intent none
    ∷ Call.ingest_call "core" "worker" "" (some ("src/a.py" ∷ []))
    ∷ Call.integrate_call
    ∷ Call.dispatch_call "local" intent none
    ∷ Call.ingest_call "api" "worker" "" (some ("api/b.py" ∷ []))
    ∷ Call.integrate_call
    ∷ Call.verify_call 3
    ∷ []

perform_all-IsSound_example : IsSound site (perform_all site calls fleet)
perform_all-IsSound_example = perform_all-IsSound site calls fleet (inl refl, (inl refl, tt))

program : Unit {0}
unfolding dispatch packets refresh refresh_tasks prepare start_ready exhausted used ingest accept
    within run_all run judge_cmd integrate merge_all ownership_conflicts topological_batches
    add_by_id batches due without sort_by str_le verify measure budgets_last verdict by_gate
    retire_all attribute_failures parse_metrics claim_branches claim_all ends_slash rstrip_slash
    read_lines splitlines
program = tt

end-passed : (perform_all site calls fleet).run.status ≡ RunStatus.passed
unfolding program
end-passed = refl

end-merged : all (is TaskState.merged) (perform_all site calls fleet).design.tasks ≡ true
unfolding program
end-merged = refl

abbrev branches : Dict (List String)
branches = ("task/core", "src/a.py" ∷ []) ∷ ("task/api", "api/b.py" ∷ []) ∷ []

branches-clean : ownership_conflicts branches ≡ []
unfolding program
branches-clean = refl

abbrev branch_name : String
branch_name = "task/api"

ownership_conflicts-nil_example : branch_name ≡ branch_name
ownership_conflicts-nil_example =
    ownership_conflicts-nil branches branch_name branch_name ("api/b.py" ∷ []) ("api/b.py" ∷ [])
      "api/b.py" branches-clean (inr (inl refl)) (inr (inl refl)) (inl refl) (inl refl)
