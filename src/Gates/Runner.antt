-- ===== src/Gates/Runner.antt =====
-- `GateRunner` of minifleet/gates.py: a gate becomes evidence, whatever the machine does.
use Prim.Native.Char.{code}
use Prim.Native.String.{[] as no_chars, ◌∷◌ as and_char, ◌++◌ as append}
use minifleet.Prelude.{
  ℕ, ◌-◌, String, Bool, false, ◌&&◌, Option, none, some, List, [], ◌∷◌, ◌++◌, ◌==◌, if◌then◌else◌,
  eqb, any, is_empty, drop, length, Dict, insert, lookup,
}
use minifleet.Model.{
  ℤ, eq_ℤ, Float, lt_float, eq_float, le_float, Value, Items, array, object, get_field, get_item,
  eq_value, Message, exit, unknown_kind, raised, paths, all_satisfied, no_artifact, not_found,
  observed, unmeasured, budget, Gate, Evidence,
}
use minifleet.Gates.Output.{Decoder, parse_metrics, diagnose}

-- What a shell command does: it ends with a code and its two outputs, or the call raises.
pub data Ran : Type 0 where
  exited : ℤ → List ℕ → List ℕ → Ran
  broke : String → Ran

-- A JSON file: absent, unreadable (the call raises), or a value.
pub data Json : Type 0 where
  absent : Json
  broken : String → Json
  loaded : Value → Json

-- What matches a pattern; an empty or an absolute pattern raises.
pub data Globbed : Type 0 where
  matched : List String → Globbed
  invalid : String → Globbed

-- `int(s)`, which raises on some texts that are digits for `str.isdigit`
pub data Index : Type 0 where
  index : ℕ → Index
  no_index : String → Index

-- The end of a walk into a JSON value.
pub data Walked : Type 0 where
  lost : Walked
  stopped : String → Walked
  reached : Value → Walked

-- The patterns that lack a file and the files that are forbidden, or an exception.
pub data Looked : Type 0 where
  unreadable : String → Looked
  looked : List String → List String → Looked

-- The machine that the gates run on: the shell, the file system and the JSON decoder, with
-- `str.isdigit` and `int`.
pub record Machine : Type 1 where
  pub World : Type 0
  pub shell : World → String → Gate → Ran × World
  pub glob : World → String → String → Globbed
  pub read_json : World → String → String → Json
  pub decoder : Decoder
  pub is_digit : String → Bool
  pub int_of : String → Index

abbrev pub compare_by : Float → String → Float → Bool
compare_by value op threshold =
    if op == "<="
    then le_float value threshold
    else if op == "<"
    then lt_float value threshold
    else if op == ">="
    then le_float threshold value
    else if op == ">"
    then lt_float threshold value
    else if op == "=="
    then eq_float value threshold
    else false

-- `MetricStore.update`
abbrev pub update : Dict Float → Dict Float → Dict Float
update store [] = store
update store ((k, x) ∷ d) = update (insert k x store) d

abbrev pub contains_code : List ℤ → ℤ → Bool
contains_code expected c = any (λ e. eq_ℤ e c) expected

abbrev pub output_of : List ℕ → List ℕ → List ℕ
output_of out err = out ++ (if is_empty err then [] else 10 ∷ err)

-- `s[-n:]`
abbrev pub tail_chars : ℕ → List ℕ → List ℕ
tail_chars n cs = drop (length cs - n) cs

-- evidence with the fields that most gates leave at their defaults
abbrev pub report : Gate → String → String → Message → Evidence
report gate task_id status detail = record {
  gate_id = gate.id;
  status = status;
  detail = detail;
  exit_code = none;
  metrics = [];
  artifacts = [];
  output_tail = [];
  task_id = task_id;
}

abbrev pub pass_if : Bool → String
pass_if ok = if ok then "pass" else "fail"

-- `s.lstrip("!")`
unfoldable pub lstrip_bang : String → String
lstrip_bang no_chars = no_chars
lstrip_bang (and_char c s) = if eqb (code c) b'!' then lstrip_bang s else and_char c s

unfoldable pub begins_bang : String → Bool
begins_bang no_chars = false
begins_bang (and_char c s) = eqb (code c) b'!'

abbrev onto_part : String → List String → List String
onto_part s [] = s ∷ []
onto_part s (p ∷ ps) = append s p ∷ ps

-- `s.split(".")`
unfoldable pub split_dots : String → List String
split_dots no_chars = "" ∷ []
split_dots (and_char c s) =
    let rest = split_dots s in
    if eqb (code c) b'.' then "" ∷ rest else onto_part (and_char c no_chars) rest

module _ (m : Machine) where
  open m use {World, shell, glob, read_json, decoder, is_digit, int_of}

  abbrev item_at : ℕ → Items → Walked
  item_at i vs = elim (get_item i vs) [ none ↦ lost | some w ↦ reached w ]

  -- one turn of the walk along the dotted path
  unfoldable pub enter_part : String → Value → Walked
  enter_part part (object fs) = elim (get_field part fs) [ none ↦ lost | some w ↦ reached w ]
  enter_part part (array vs) =
      if is_digit part
      then elim (int_of part) [ no_index e ↦ stopped e | index i ↦ item_at i vs ]
      else lost
  enter_part part _ = lost

  unfoldable pub walk : List String → Value → Walked
  unfolding enter_part
  walk [] v = reached v
  walk (part ∷ parts) v = elim (enter_part part v) [
    | lost ↦ lost
    | stopped e ↦ stopped e
    | reached w ↦ walk parts w
  ]

  -- a pattern whose matches are found, before what the rest gives
  abbrev pub judge_pattern : String → List String → Looked → Looked
  judge_pattern p found (unreadable e) = unreadable e
  judge_pattern p found (looked lacking forbidden) =
      if begins_bang p
      then looked lacking (found ++ forbidden)
      else if is_empty found
      then looked (lstrip_bang p ∷ lacking) forbidden
      else looked lacking forbidden

  -- the loop over the patterns
  unfoldable pub look : World → String → List String → Looked
  unfolding lstrip_bang begins_bang
  look w workspace [] = looked [] []
  look w workspace (p ∷ ps) =
      let rest = look w workspace ps in
      elim (glob w workspace (lstrip_bang p)) [
        | invalid e ↦ unreadable e
        | matched found ↦ judge_pattern p found rest
      ]

  -- `_cmd`: the evidence, and the metrics that the command published
  unfoldable pub judge_cmd : String → Gate → String → Ran → Dict Float → Evidence × Dict Float
  unfolding parse_metrics diagnose
  judge_cmd dir gate task_id (broke e) store = (report gate task_id "error" (raised e), store)
  judge_cmd dir gate task_id (exited c out err) store =
      let output = output_of out err in
      let metrics = parse_metrics decoder output in
      let ok = contains_code gate.expect_exit c in
      (
        record {
          gate_id = gate.id;
          status = pass_if ok;
          detail = exit c gate.expect_exit (if ok then [] else diagnose output);
          exit_code = some c;
          metrics = metrics;
          artifacts = append dir (append "/" (append gate.id ".json")) ∷ [];
          output_tail = tail_chars 4000 output;
          task_id = task_id;
        },
        update store metrics,
      )

  abbrev pub files_report : Gate → String → Looked → Evidence
  files_report gate task_id (unreadable e) = report gate task_id "error" (raised e)
  files_report gate task_id (looked lacking forbidden) =
      let ok = is_empty lacking && is_empty forbidden in
      report gate task_id (pass_if ok)
        (if ok then all_satisfied gate.paths else paths lacking forbidden)

  unfoldable pub judge_files : World → String → Gate → String → Evidence
  unfolding look
  judge_files w workspace gate task_id = files_report gate task_id (look w workspace gate.paths)

  abbrev pub target : Gate → String
  target gate = elim gate.paths [ [] ↦ gate.json_path | p ∷ _ ↦ p ]

  unfoldable pub judge_json : Gate → String → Json → Evidence
  unfolding walk split_dots eq_value
  judge_json gate task_id absent = report gate task_id "fail" (no_artifact (target gate))
  judge_json gate task_id (broken e) = report gate task_id "error" (raised e)
  judge_json gate task_id (loaded v) = elim (walk (split_dots gate.json_path) v) [
    | lost ↦ report gate task_id "fail" (not_found gate.json_path (target gate))
    | stopped e ↦ report gate task_id "error" (raised e)
    | reached found ↦
        report gate task_id (pass_if (eq_value found gate.json_expected))
          (observed gate.json_path found gate.json_expected)
  ]

  unfoldable pub judge_budget : Gate → String → Option Float → Evidence
  judge_budget gate task_id none = report gate task_id "error" (unmeasured gate.metric)
  judge_budget gate task_id (some value) =
      let ok = compare_by value gate.op gate.threshold in
      record (report gate task_id (pass_if ok)
        (budget gate.metric value gate.op gate.threshold ok)) {
          metrics = (gate.metric, value) ∷ [];
        }

  -- The machine, and the metrics of the run.
  pub record Lab : Type 0 where
    pub world : World
    pub store : Dict Float

  -- `GateRunner.run` in a workspace, with the directory of the artifacts.
  unfoldable pub run : String → String → Gate → String → Lab → Evidence × Lab
  unfolding judge_cmd judge_files judge_json judge_budget
  run workspace dir gate task_id lab =
      if gate.kind == "cmd"
      then (let (ran, w) = shell lab.world workspace gate in
          let (evidence, store) = judge_cmd dir gate task_id ran lab.store in
          (evidence, record { world = w; store = store }))
      else if gate.kind == "files"
      then (judge_files lab.world workspace gate task_id, lab)
      else if gate.kind == "json"
      then (judge_json gate task_id (read_json lab.world workspace (target gate)), lab)
      else if gate.kind == "budget"
      then (judge_budget gate task_id (lookup gate.metric lab.store), lab)
      else (report gate task_id "error" (unknown_kind gate.kind), lab)
