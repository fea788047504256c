-- ===== src/Model/Codec.antt =====
-- `to_dict` and `from_dict` of minifleet/model.py: the dataclasses of an intent as JSON values.
--
-- `none` is the exception of a missing key or an unknown one, and also stands for a value of
-- another type than its field has, which Python would keep.
mod Parts
pub mod Intents
pub mod RoundTrips
unfoldable pub use Parts.*
use minifleet.Prelude.{
  ℕ, String, Bool, true, false, not, Option, none, some, List, [], ◌∷◌, map, is_empty, minus,
  if◌then◌else◌,
}
use minifleet.Model.{
  ℤ, pos, Float, finite, Value, null, bool, number, text, array, object, Items, Fields, end, field,
  get_field, field_names, AcceptanceCriterion, Contract, Component, Gate, IntentSpec,
}

unfoldable pub criterion_of : Fields → Option AcceptanceCriterion
criterion_of fs = do
  id ← as_text (get_field "id" fs)
  statement ← as_text (get_field "statement" fs)
  kind ← text_or "functional" (get_field "kind" fs)
  gates ← texts_or [] (get_field "gates" fs)
  some (record { id = id; statement = statement; kind = kind; gates = gates })

abbrev pub criterion_fields : AcceptanceCriterion → Fields
criterion_fields c = field "id" (text c.id) (
    field "statement" (text c.statement)
      (field "kind" (text c.kind) (field "gates" (texts c.gates) end)))

unfoldable pub contract_of : Fields → Option Contract
contract_of fs = do
  id ← as_text (get_field "id" fs)
  path ← as_text (get_field "path" fs)
  summary ← text_or "" (get_field "summary" fs)
  exports ← text_dict_or [] (get_field "exports" fs)
  content ← text_or "" (get_field "content" fs)
  some (record {
    id = id;
    path = path;
    summary = summary;
    exports = exports;
    frozen = truth_or true (get_field "frozen" fs);
    content = content;
  })

abbrev pub contract_fields : Contract → Fields
contract_fields c = field "id" (text c.id) (
    field "path" (text c.path) (
      field "summary" (text c.summary) (
        field "exports" (text_dict c.exports)
          (field "frozen" (bool c.frozen) (field "content" (text c.content) end)))))

unfoldable pub component_of : Fields → Option Component
component_of fs = do
  id ← as_text (get_field "id" fs)
  name ← as_text (get_field "name" fs)
  responsibility ← text_or "" (get_field "responsibility" fs)
  owns ← texts_or [] (get_field "owns" fs)
  depends_on ← texts_or [] (get_field "depends_on" fs)
  contract_ids ← texts_or [] (get_field "contract_ids" fs)
  acceptance_ids ← texts_or [] (get_field "acceptance_ids" fs)
  tests ← texts_or [] (get_field "tests" fs)
  done_when ← texts_or [] (get_field "done_when" fs)
  gate_ids ← texts_or [] (get_field "gate_ids" fs)
  some (record {
    id = id;
    name = name;
    responsibility = responsibility;
    owns = owns;
    depends_on = depends_on;
    contract_ids = contract_ids;
    acceptance_ids = acceptance_ids;
    tests = tests;
    done_when = done_when;
    gate_ids = gate_ids;
  })

abbrev pub component_fields : Component → Fields
component_fields c = field "id" (text c.id) (
    field "name" (text c.name) (
      field "responsibility" (text c.responsibility) (
        field "owns" (texts c.owns) (
          field "depends_on" (texts c.depends_on) (
            field "contract_ids" (texts c.contract_ids) (
              field "acceptance_ids" (texts c.acceptance_ids) (
                field "tests" (texts c.tests) (
                  field "done_when" (texts c.done_when)
                    (field "gate_ids" (texts c.gate_ids) end)))))))))

abbrev pub gate_keys : List String
gate_keys =
    "id" ∷ "title" ∷ "kind" ∷ "cmd" ∷ "cwd" ∷ "timeout" ∷ "required" ∷ "scope" ∷ "expect_exit"
    ∷ "metric" ∷ "op" ∷ "threshold" ∷ "paths" ∷ "json_path" ∷ "json_expected" ∷ "description"
    ∷ "attributed_to" ∷ []

-- `cls(**payload)`, with the title of `setdefault`; a gate without an id is a TypeError
unfoldable pub gate_payload : Fields → Option Gate
gate_payload fs = do
  id ← as_text (get_field "id" fs)
  title ← text_or id (get_field "title" fs)
  kind ← text_or "cmd" (get_field "kind" fs)
  cmd ← text_or "" (get_field "cmd" fs)
  cwd ← text_or "." (get_field "cwd" fs)
  timeout ← float_or (whole (pos 300)) (get_field "timeout" fs)
  required ← flag_or true (get_field "required" fs)
  scope ← text_or "system" (get_field "scope" fs)
  expect_exit ← wholes_or (pos 0 ∷ []) (get_field "expect_exit" fs)
  metric ← text_or "" (get_field "metric" fs)
  op ← text_or "<=" (get_field "op" fs)
  threshold ← float_or (finite (pos 0)) (get_field "threshold" fs)
  paths ← texts_or [] (get_field "paths" fs)
  json_path ← text_or "" (get_field "json_path" fs)
  description ← text_or "" (get_field "description" fs)
  attributed_to ← texts_or [] (get_field "attributed_to" fs)
  some (record {
    id = id;
    title = title;
    kind = kind;
    cmd = cmd;
    cwd = cwd;
    timeout = timeout;
    required = required;
    scope = scope;
    expect_exit = expect_exit;
    metric = metric;
    op = op;
    threshold = threshold;
    paths = paths;
    json_path = json_path;
    json_expected = value_or null (get_field "json_expected" fs);
    description = description;
    attributed_to = attributed_to;
  })

-- `Gate.from_dict`; an unknown key is a ValueError
unfoldable pub gate_of : Fields → Option Gate
gate_of fs =
    let unknown = minus (field_names fs) gate_keys in
    if is_empty unknown then gate_payload fs else none

abbrev pub gate_rest_fields : Gate → Fields
gate_rest_fields g = field "metric" (text g.metric) (
    field "op" (text g.op) (
      field "threshold" (number g.threshold) (
        field "paths" (texts g.paths) (
          field "json_path" (text g.json_path) (
            field "json_expected" g.json_expected (
              field "description" (text g.description)
                (field "attributed_to" (texts g.attributed_to) end)))))))

abbrev pub gate_fields : Gate → Fields
gate_fields g = field "id" (text g.id) (
    field "title" (text g.title) (
      field "kind" (text g.kind) (
        field "cmd" (text g.cmd) (
          field "cwd" (text g.cwd) (
            field "timeout" (number g.timeout) (
              field "required" (bool g.required) (
                field "scope" (text g.scope) (
                  field "expect_exit" (array (whole_items g.expect_exit))
                    (gate_rest_fields g)))))))))
