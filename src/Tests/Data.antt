-- ===== src/Tests/Data.antt =====
-- The inputs: an intent of two components, a fleet for its design, and a site where all goes well.
use minifleet.Prelude.{ℕ, suc, String, true, false, ◌==◌, none, some, List, [], ◌∷◌}
use minifleet.Model.{
  pos, finite, null, TaskState, RunStatus, text, Component, Gate, IntentSpec, Evidence, Task,
  Design, Verdict,
}
use minifleet.Architect.Review.{Designed, ok, design_error, draft, default_contracts}
use minifleet.Gates.Runner.{Machine, exited, absent, matched, no_index}
use minifleet.Scheduler.State.{Site, done, Fleet}

abbrev pub component : String → List String → List String → Component
component id owns depends_on = record {
  id = id;
  name = id;
  responsibility = "";
  owns = owns;
  depends_on = depends_on;
  contract_ids = [];
  acceptance_ids = [];
  tests = [];
  done_when = [];
  gate_ids = "G-unit" ∷ [];
}

abbrev pub gate : String → String → String → Gate
gate id kind scope = record {
  id = id;
  title = id;
  kind = kind;
  cmd = "true";
  cwd = ".";
  timeout = finite (pos 0);
  required = true;
  scope = scope;
  expect_exit = pos 0 ∷ [];
  metric = "";
  op = "<=";
  threshold = finite (pos 0);
  paths = [];
  json_path = "";
  json_expected = null;
  description = "";
  attributed_to = [];
}

-- `api` needs `core` and a component that does not exist, owns no path, and both need each other.
abbrev pub intent : IntentSpec
intent = record {
  id = "I";
  title = "";
  summary = "";
  stakeholders = [];
  deliverables = [];
  acceptance =
      record { id = "A1"; statement = "it works"; kind = "functional"; gates = "G-all" ∷ [] }
      ∷ record { id = "A2"; statement = "it is told"; kind = "functional"; gates = [] }
      ∷ [];
  constraints = [];
  budgets = [];
  out_of_scope = [];
  components =
      component "api" [] ("core" ∷ "ghost" ∷ [])
      ∷ component "core" ("src/core/" ∷ []) ("api" ∷ [])
      ∷ [];
  gate_defs = gate "G-unit" "cmd" "task" ∷ gate "G-all" "cmd" "system" ∷ [];
  contracts = [];
  harness_dir = "";
  baseline_from = "";
  limits = [];
}

abbrev pub plan_of : Designed → Design
plan_of (ok plan spec) = plan
plan_of (design_error problems) = draft [] intent

abbrev pub spec_of : Designed → IntentSpec
spec_of (ok plan spec) = spec
spec_of (design_error problems) = intent

-- Every command exits with 0; a world counts the calls.
abbrev pub machine : Machine
machine = record {
  World = ℕ;
  shell = λ w dir g. (exited (pos 0) [] [], suc w);
  glob = λ w dir p. matched [];
  read_json = λ w dir p. absent;
  decoder = record { loads = λ s. none; parse_float = λ s. none };
  is_digit = λ s. false;
  int_of = λ s. no_index "no number";
}

abbrev pub site : Site
site = record {
  machine = machine;
  fnmatch = λ name pattern. name == pattern;
  evidence_dir = "evidence";
  sandbox = λ c. c;
  clock = λ w. w;
  head = λ w. "base";
  changed_files = λ w dir base. [];
  commit_all = λ w dir t. (some "sha", suc w);
  attempt_branch = λ w c branch base. branch;
  add_worktree = λ w dir branch base. suc w;
  remove_worktree = λ w dir. suc w;
  ensure_branch = λ w branch. suc w;
  checkout = λ w branch. done (suc w);
  merge = λ w t. done (suc w);
  write_packet = λ w t. suc w;
  write_brief = λ w p. suc w;
  describe = λ ids. "cycle";
  work = λ w ids. suc w;
}

abbrev pub task : String → List String → List String → Task
task id owns depends_on = record {
  id = id;
  title = id;
  role = "builder";
  goal = "";
  owns = owns;
  depends_on = depends_on;
  contract_ids = [];
  acceptance_ids = [];
  done_when = [];
  tests = [];
  gate_ids = "G-unit" ∷ [];
  component_id = id;
  state = TaskState.pending;
  attempts = 0;
  branch = id;
  worktree = "";
  submitted_files = [];
  evidence = [];
  notes = text "";
  started_at = none;
  finished_at = none;
}

abbrev pub chain : List Task
chain = task "core" ("src/" ∷ []) [] ∷ task "api" ("api/" ∷ []) ("core" ∷ []) ∷ []

abbrev pub ring : List Task
ring = task "core" ("src/" ∷ []) ("api" ∷ []) ∷ task "api" ("api/" ∷ []) ("core" ∷ []) ∷ []

abbrev pub fleet : Fleet site
fleet = record {
  run = record {
    id = "run";
    intent_id = "I";
    status = RunStatus.planning;
    repo_dir = "product";
    integration_branch = "main";
    dispatcher = "";
    evidence = [];
    events = [];
    verdict = Verdict.unset;
    attributed_verdict = Verdict.unset;
  };
  design = record {
    intent_id = "I";
    components = [];
    contracts = default_contracts;
    tasks = chain;
    gates = gate "G-unit" "cmd" "task" ∷ gate "G-all" "cmd" "system" ∷ [];
    risks = [];
    decisions = [];
    repairs = [];
  };
  lab = record { world = 0; store = [] };
}

abbrev pub evidence : String → String → Evidence
evidence gate_id status = record {
  gate_id = gate_id;
  status = status;
  detail = text "";
  exit_code = none;
  metrics = [];
  artifacts = [];
  output_tail = [];
  task_id = "";
}

-- an intent that is in order
abbrev pub sound_intent : IntentSpec
sound_intent = record intent {
  deliverables = "a service" ∷ [];
  components =
      component "api" ("api/" ∷ []) ("core" ∷ []) ∷ component "core" ("src/core/" ∷ []) [] ∷ [];
}
