-- ===== src/Scheduler/Integrate.antt =====
-- `integrate` and `verify` of minifleet/scheduler.py: the merge, and the judgement of the merged tree.
use minifleet.Prelude.{
  String, Bool, not, ◌||◌, Option, none, some, List, [], ◌∷◌, ◌++◌, map, ◌==◌, if◌then◌else◌,
  filter, any, is_empty, Dict, insert, sort_by,
}
use minifleet.Prelude.{ℕ}
use minifleet.Model.{TaskState, RunStatus, Verdict, passes, Gate, Evidence, Task, Event}
use minifleet.Architect.Batches.{Plan, waves, design_error, topological_batches}
use minifleet.Gates.Verdicts.{verdict}
use minifleet.Scheduler.State.{
  Site, Done, done, failed, Fleet, is, system_gates, statuses, tell, with_tasks, with_world,
  run_all,
}
use minifleet.Scheduler.Ownership.{ownership_conflicts}
use minifleet.Scheduler.Wave.{refresh}
use minifleet.Scheduler.Repair.{attribute_failures, retire}

-- the last element that passes the test
abbrev pub find_last {ℓ} : {A : Type ℓ} → (A → Bool) → List A → Option A
find_last p [] = none
find_last p (x ∷ xs) =
    let rest = find_last p xs in if any p xs then rest else if p x then some x else none

abbrev pub update_last {ℓ} : {A : Type ℓ} → (A → Bool) → (A → A) → List A → List A
update_last p f [] = []
update_last p f (x ∷ xs) =
    let rest = update_last p f xs in if any p xs then x ∷ rest else if p x then f x ∷ xs else x ∷ xs

abbrev pub merged : Task → Task
merged t = record t { state = TaskState.merged }

abbrev pub has_id : String → Task → Bool
has_id id t = t.id == id

abbrev pub with_status : {s : Site} → RunStatus → Fleet s → Fleet s
with_status status f = record f { run = record f.run { status = status } }

abbrev pub with_verdict : {s : Site} → Verdict → Fleet s → Fleet s
with_verdict v f = record f { run = record f.run { verdict = v } }

-- The end of the loop over the waves: with an error, or without.
pub record Merging (s : Site) : Type 0 where
  pub fleet : Fleet s
  pub error : Option String

abbrev pub is_budget : Gate → Bool
is_budget g = g.kind == "budget"

-- `sorted(..., key=lambda g: 1 if g.kind == "budget" else 0)`
unfoldable pub budgets_last : List Gate → List Gate
budgets_last gates = sort_by (λ a b. not (is_budget a) || is_budget b) gates

abbrev pub required_ids : List Gate → List String
required_ids gates = map (λ g. g.id) (filter (λ g. g.required) gates)

-- the branches of the verified tasks, with the files that each changes
abbrev pub changes : (s : Site) → s.machine.World → String → List Task → Dict (List String)
changes s w base ts = branches_from [] ts
  where
    branches_from : Dict (List String) → List Task → Dict (List String)
    branches_from d [] = d
    branches_from d (t ∷ ts) =
        branches_from
          (if is TaskState.verified t
            then insert t.branch (s.changed_files w t.worktree base) d
            else d)
          ts

abbrev pub concat {ℓ} : {A : Type ℓ} → List (List A) → List A
concat [] = []
concat (xs ∷ xss) = xs ++ concat xss

unfoldable pub retire_all : (s : Site) → List Task → s.machine.World → s.machine.World
retire_all s [] w = w
retire_all s (t ∷ ts) w = retire_all s ts (retire s t w)

module _ {s : Site} where
  -- the call of `merge` and the two statements behind it
  abbrev pub record_merge : String → Task → Fleet s → Done s.machine.World → Merging s
  record_merge id t f (failed e w) = record { fleet = with_world w f; error = some e }
  record_merge id t f (done w) = record {
    fleet =
        tell (Event.task_merged t.id t.branch)
          (with_world w (with_tasks (update_last (has_id id) merged f.design.tasks) f));
    error = none;
  }

  -- an error leaves the loops
  abbrev pub unless_error : Option String → Merging s → Merging s → Merging s
  unless_error (some e) m rest = m
  unless_error none m rest = rest

  -- the two loops over the waves; a task object of a wave is the last task with its id
  unfoldable pub merge_all : List String → Fleet s → Merging s
  merge_all [] f = record { fleet = f; error = none }
  merge_all (id ∷ ids) f = elim (find_last (has_id id) f.design.tasks) [
    | none ↦ merge_all ids f
    | some t ↦
        let m = record_merge id t f (s.merge f.lab.world t) in
        let rest = merge_all ids m.fleet in
        let skipped = merge_all ids f in
        if is TaskState.verified t then unless_error m.error m rest else skipped
  ]

  -- the end of `integrate`, with the handler of its `try`
  abbrev pub settle : Option String → Fleet s → Fleet s
  settle none f = refresh f
  settle (some e) f =
      tell (Event.integrate_error e)
        (with_verdict (Verdict.integration_error e) (with_status RunStatus.failed f))

  -- the body of the `try`
  abbrev pub merge_plan : Option Plan → Fleet s → Merging s
  merge_plan (some (waves ws)) f = merge_all (map (λ t. t.id) (concat ws)) f
  merge_plan (some (design_error left)) f = record { fleet = f; error = some (s.describe left) }
  merge_plan none f = record { fleet = f; error = none }

  abbrev pub merge_waves : Done s.machine.World → Fleet s → Merging s
  merge_waves (failed e w) f = record { fleet = with_world w f; error = some e }
  merge_waves (done w) f = merge_plan (topological_batches f.design.tasks) (with_world w f)

  abbrev pub conflicts_of : Fleet s → List (String × String × List String)
  conflicts_of f = ownership_conflicts (changes s f.lab.world (s.head f.lab.world) f.design.tasks)

  -- the `try` and what follows it
  abbrev pub merge_verified : Fleet s → Fleet s
  merge_verified f =
      let m = merge_waves (s.checkout f.lab.world f.run.integration_branch) f in
      settle m.error m.fleet

  abbrev pub refuse_merge : List (String × String × List String) → Fleet s → Fleet s
  refuse_merge conflicts f =
      tell (Event.integrate_conflict conflicts)
        (with_verdict (Verdict.ownership_conflicts conflicts) f)

  -- the status and the branch that `integrate` begins with
  abbrev pub begin : Fleet s → Fleet s
  begin f =
      let f1 = with_status RunStatus.integrating f in
      with_world (s.ensure_branch f1.lab.world f1.run.integration_branch) f1

  unfoldable pub integrate : Fleet s → Fleet s
  unfolding merge_all ownership_conflicts refresh
  integrate f =
      if is_empty (conflicts_of (begin f))
      then merge_verified (begin f)
      else refuse_merge (conflicts_of (begin f)) (begin f)

  -- `verify` up to the verdict: the evidence, and the run judged by it
  unfoldable pub measure : Fleet s → List Evidence × Fleet s
  unfolding budgets_last run_all verdict
  measure f =
      let f1 = with_status RunStatus.verifying f in
      let gates = budgets_last (system_gates f1.design.gates) in
      let (evidence, lab) = run_all s f1.run.repo_dir gates "" f1.lab in
      let result = verdict evidence (required_ids gates) in
      (
        evidence,
        record f1 {
          run = record f1.run {
            evidence = f1.run.evidence ++ evidence;
            verdict = result;
            status = if passes result then RunStatus.passed else RunStatus.failed;
          };
          lab = lab;
        },
      )

  abbrev pub accept_run : List Evidence → Fleet s → Fleet s
  accept_run evidence f =
      with_world (retire_all s f.design.tasks f.lab.world)
        (tell (Event.system_verified f.run.verdict (statuses [] evidence) [] []) f)

  abbrev pub refuse_run : ℕ → List Evidence → Fleet s → Fleet s
  refuse_run max_attempts evidence f =
      let required = required_ids (budgets_last (system_gates f.design.gates)) in
      let o = attribute_failures max_attempts (some required) evidence f in
      let seen = record o.fleet {
        run = record o.fleet.run { attributed_verdict = f.run.verdict };
      } in
      tell (Event.system_verified f.run.verdict (statuses [] evidence) o.reopened o.unattributed)
        seen

  unfoldable pub verify : ℕ → Fleet s → Fleet s
  unfolding measure budgets_last attribute_failures retire_all
  verify max_attempts f =
      let (evidence, judged) = measure f in
      if passes judged.run.verdict
      then accept_run evidence judged
      else refuse_run max_attempts evidence judged
