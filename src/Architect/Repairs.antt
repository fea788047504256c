-- ===== src/Architect/Repairs.antt =====
-- `repair` of minifleet/architect.py: its four parts, and their composition.
use Prim.Native.String.{[] as empty_text, ◌∷◌ as and_char, ◌++◌ as append}
use minifleet.Prelude.{
  ℕ, zero, suc, ◌*◌, ◌^◌, String, true, not, Option, none, some, List, [], ◌∷◌, ◌++◌, map, ◌==◌,
  if◌then◌else◌, filter, is_empty, contains, minus, dedup, sort_by, str_le,
}
use minifleet.Model.{
  pos, Float, finite, null, TaskState, AcceptanceCriterion, Gate, Task, Repair, Design,
}
use minifleet.Architect.Graph.{find_cycles}
use minifleet.Architect.Batches.{ids}

-- the double of a whole number
pub double : ℕ → Float
double n = finite (pos (n * 2 ^ 1074))

-- `s[:n]`
pub take_chars : ℕ → String → String
take_chars zero s = ""
take_chars (suc n) empty_text = ""
take_chars (suc n) (and_char c s) = and_char c (take_chars n s)

-- repair, part 1: a probe gate for each criterion without a gate
abbrev pub probe_id : AcceptanceCriterion → String
probe_id c = append "G-probe-" c.id

unfoldable pub probe_gate : AcceptanceCriterion → Gate
unfolding double take_chars
probe_gate c = record {
  id = probe_id c;
  title = append "probe: " (take_chars 60 c.statement);
  kind = "files";
  cmd = "";
  cwd = ".";
  timeout = double 300;
  required = true;
  scope = "system";
  expect_exit = pos 0 ∷ [];
  metric = "";
  op = "<=";
  threshold = finite (pos 0);
  paths = "ACCEPTANCE.md" ∷ [];
  json_path = "";
  json_expected = null;
  description = "synthesised because the intent declared no gate for this criterion";
  attributed_to = [];
}

abbrev pub unproven : List AcceptanceCriterion → List AcceptanceCriterion
unproven = filter (λ c. is_empty c.gates)

abbrev pub probed : AcceptanceCriterion → AcceptanceCriterion
probed c = if is_empty c.gates then record c { gates = probe_id c ∷ [] } else c

unfoldable pub add_probes : List AcceptanceCriterion → Design → Design
unfolding probe_gate
add_probes criteria plan = record plan {
  gates = plan.gates ++ map probe_gate (unproven criteria);
  repairs = plan.repairs ++ map (λ c. Repair.added_probe c.id (probe_id c)) (unproven criteria);
}

-- part 2: a design note for each task that claims no files
abbrev pub note_path : Task → String
note_path t = append "docs/" (append (if t.component_id == "" then t.id else t.component_id) ".md")

abbrev pub scoped : Task → Task
scoped t =
    if is_empty t.owns then record t { owns = note_path t ∷ []; state = TaskState.ready } else t

unfoldable pub assign_scopes : Design → Design
assign_scopes plan = record plan {
  tasks = map scoped plan.tasks;
  repairs =
      plan.repairs
      ++ map (λ t. Repair.assigned_scope t.id (note_path t))
          (filter (λ t. is_empty t.owns) plan.tasks);
}

-- part 3: each cycle loses the edges from its least member into it
abbrev pub find_task : String → List Task → Option Task
find_task id [] = none
find_task id (t ∷ ts) = if t.id == id then some t else find_task id ts

abbrev pub drop_edges : String → List String → List Task → List Task
drop_edges id dropped [] = []
drop_edges id dropped (t ∷ ts) =
    if t.id == id
    then record t { depends_on = minus t.depends_on dropped } ∷ ts
    else t ∷ drop_edges id dropped ts

abbrev pub edges_into : List String → Task → List String
edges_into cycle t = sort_by str_le (dedup (filter (contains cycle) t.depends_on))

-- A cycle has a member, and each member is a task: the other branches do not arise.
unfoldable pub break_cycle : Design → List String → Design
break_cycle plan cycle = elim (sort_by str_le cycle) [
  | [] ↦ plan
  | victim ∷ _ ↦ elim (find_task victim plan.tasks) [
    | none ↦ plan
    | some t ↦ record plan {
      tasks = drop_edges victim (edges_into cycle t) plan.tasks;
      repairs =
          plan.repairs
          ++ Repair.broke_cycle (sort_by str_le cycle) victim (edges_into cycle t) ∷ [];
    }
  ]
]

unfoldable pub break_cycles : Design → List (List String) → Design
unfolding break_cycle
break_cycles plan [] = plan
break_cycles plan (c ∷ cs) = break_cycles (break_cycle plan c) cs

-- part 4: only dependencies that exist are kept
abbrev pub known_only : List String → Task → Task
known_only known t = record t { depends_on = filter (contains known) t.depends_on }

unfoldable pub drop_unknown : Design → Design
drop_unknown plan =
    let known = ids plan.tasks in
    record plan {
      tasks = map (known_only known) plan.tasks;
      repairs =
          plan.repairs
          ++ map (λ t. Repair.dropped_unknown t.id (minus t.depends_on known))
              (filter (λ t. not (is_empty (minus t.depends_on known))) plan.tasks);
    }

-- The plan, and the criteria that it changes too.
unfoldable pub repair : Design → List AcceptanceCriterion → Design × List AcceptanceCriterion
unfolding add_probes assign_scopes break_cycles drop_unknown
repair plan criteria =
    let scopes = assign_scopes (add_probes criteria plan) in
    (drop_unknown (break_cycles scopes (find_cycles scopes.tasks)), map probed criteria)
