-- ===== src/Architect/Review.antt =====
-- `design` and `check` of minifleet/architect.py.
mod Parts
pub mod Waiting
pub mod Promises
use Prim.Native.String.{[] as empty_text, ◌∷◌ as and_char, ◌++◌ as append}
use minifleet.Prelude.{
  ℕ, zero, suc, ◌*◌, ◌^◌, String, Bool, true, false, not, ◌&&◌, Option, none, some, List, [], ◌∷◌,
  ◌++◌, map, ◌==◌, if◌then◌else◌, length, ltb, any, filter, is_empty, contains, subset, minus,
  dedup, Dict, insert, lookup, sort_by, str_le,
}
use minifleet.Model.{
  ℤ, pos, Float, finite, null, TaskState, text, AcceptanceCriterion, Contract, Component, Gate,
  IntentSpec, Task, Risk, Repair, Decision, Design,
}
use minifleet.Architect.Graph.{find_cycles}
use minifleet.Architect.Batches.{ids}
use minifleet.Architect.Repairs.{repair}

-- `_task_for`
unfoldable pub task_for : Component → Task
task_for c = record {
  id = append "T-" c.id;
  title = c.name;
  role = "builder";
  goal = c.responsibility;
  owns = c.owns;
  depends_on = map (λ d. append "T-" d) c.depends_on;
  contract_ids = c.contract_ids;
  acceptance_ids = c.acceptance_ids;
  done_when = c.done_when;
  tests = c.tests;
  gate_ids = c.gate_ids;
  component_id = c.id;
  state = TaskState.pending;
  attempts = 0;
  branch = append "task/" c.id;
  worktree = "";
  submitted_files = [];
  evidence = [];
  notes = text "";
  started_at = none;
  finished_at = none;
}

abbrev pub default_contracts : List Contract
default_contracts =
    record {
      id = "C-README";
      path = "README.md";
      summary = "frozen statement of what the system promises and how it is verified";
      exports = [];
      frozen = true;
      content = "";
    }
    ∷ []

unfoldable pub risks : IntentSpec → List Risk
risks spec =
    (if ltb 3 (length spec.components) then Risk.wide_graph ∷ [] else [])
    ++ ((if any (λ c. c.kind == "nfr") spec.acceptance then Risk.nfr_trust ∷ [] else [])
        ++ (if is_empty spec.out_of_scope then Risk.no_out_of_scope ∷ [] else []))

pub data Problem : Type 0 where
  cycles_remain : List (List String) → Problem
  shared_scope : String → String → String → Problem
  unknown_gate : String → String → Problem
  uncovered : String → Problem
  unknown_contracts : String → List String → Problem
  no_gates : Problem

abbrev pub clash : String → String → Option String → List Problem
clash path id none = []
clash path id (some owner) = if owner == id then [] else Problem.shared_scope path owner id ∷ []

-- the loop with `owners`, over the paths and their tasks
abbrev pub shared : Dict String → List (String × String) → List Problem
shared owners [] = []
shared owners ((path, id) ∷ rest) =
    clash path id (lookup path owners) ++ shared (insert path id owners) rest

abbrev pub claims : List Task → List (String × String)
claims [] = []
claims (t ∷ ts) = map (λ p. (p, t.id)) t.owns ++ claims ts

abbrev pub unknown_gates : List String → List Task → List Problem
unknown_gates gates [] = []
unknown_gates gates (t ∷ ts) =
    map (Problem.unknown_gate t.id) (minus t.gate_ids gates) ++ unknown_gates gates ts

abbrev pub contract_problems : List String → List Task → List Problem
contract_problems contracts [] = []
contract_problems contracts (t ∷ ts) =
    let missing = dedup (minus t.contract_ids contracts) in
    (if is_empty missing then [] else Problem.unknown_contracts t.id (sort_by str_le missing) ∷ [])
    ++ contract_problems contracts ts

abbrev pub gate_ids_of : Design → List String
gate_ids_of plan = map (λ g. g.id) plan.gates

abbrev pub cycle_problems : List (List String) → List Problem
cycle_problems cycles = if is_empty cycles then [] else Problem.cycles_remain cycles ∷ []

abbrev pub cover_problems : List String → List AcceptanceCriterion → List Problem
cover_problems gates criteria =
    map (λ c. Problem.uncovered c.id) (filter (λ c. not (subset c.gates gates)) criteria)

unfoldable pub check : Design → List AcceptanceCriterion → List Problem
check plan criteria =
    cycle_problems (find_cycles plan.tasks)
    ++ (shared [] (claims plan.tasks)
        ++ (unknown_gates (gate_ids_of plan) plan.tasks
            ++ (cover_problems (gate_ids_of plan) criteria
                ++ (contract_problems (map (λ c. c.id) plan.contracts) plan.tasks
                    ++ (if is_empty plan.gates then Problem.no_gates ∷ [] else [])))))

-- A design with the intent as it is then, or `DesignError`.
pub data Designed : Type 0 where
  ok : Design → IntentSpec → Designed
  design_error : List Problem → Designed

abbrev pub reviewed : Design → IntentSpec → List Problem → Designed
reviewed plan spec [] = ok plan spec
reviewed plan spec (p ∷ ps) = design_error (p ∷ ps)

abbrev pub contracts_for : Option (IntentSpec → List Contract) → IntentSpec → List Contract
contracts_for (some factory) spec = factory spec
contracts_for none spec = if is_empty spec.contracts then default_contracts else spec.contracts

unfoldable pub draft : List Contract → IntentSpec → Design
unfolding task_for risks
draft contracts spec = record {
  intent_id = spec.id;
  components = spec.components;
  contracts = contracts;
  tasks = map task_for spec.components;
  gates = spec.gate_defs;
  risks = risks spec;
  decisions =
      Decision.verification_owns_acceptance
      ∷ Decision.single_writer
      ∷ Decision.frozen_contracts (map (λ c. c.id) contracts)
      ∷ [];
  repairs = [];
}

unfoldable pub design : Option (IntentSpec → List Contract) → IntentSpec → Designed
unfolding draft repair check
design factory spec =
    let (plan, criteria) = repair (draft (contracts_for factory spec) spec) spec.acceptance in
    reviewed plan (record spec { acceptance = criteria }) (check plan criteria)
