-- ===== src/Model/Codec/Intents.antt =====
-- `IntentSpec.to_dict` and `IntentSpec.from_dict`.
use minifleet.Prelude.{String, Option, some, []}
use minifleet.Model.{Float, text, array, object, Fields, end, field, get_field, IntentSpec}
use minifleet.Model.Codec.{
  ◌>>=◌, as_text, text_or, texts, texts_or, values_or, value_fields, floats_or_empty, float_fields,
  object_items, objects_or, criterion_of, criterion_fields, contract_of, contract_fields,
  component_of, component_fields, gate_of, gate_fields,
}

-- `parse` is `float` of a text.
unfoldable pub intent_of : (String → Option Float) → Fields → Option IntentSpec
intent_of parse fs = do
  id ← as_text (get_field "id" fs)
  title ← as_text (get_field "title" fs)
  summary ← text_or "" (get_field "summary" fs)
  stakeholders ← texts_or [] (get_field "stakeholders" fs)
  deliverables ← texts_or [] (get_field "deliverables" fs)
  acceptance ← objects_or criterion_of (get_field "acceptance" fs)
  constraints ← texts_or [] (get_field "constraints" fs)
  budgets ← values_or (get_field "budgets" fs)
  out_of_scope ← texts_or [] (get_field "out_of_scope" fs)
  components ← objects_or component_of (get_field "components" fs)
  gate_defs ← objects_or gate_of (get_field "gates" fs)
  contracts ← objects_or contract_of (get_field "contracts" fs)
  harness_dir ← text_or "" (get_field "harness_dir" fs)
  baseline_from ← text_or "" (get_field "baseline_from" fs)
  limits ← floats_or_empty parse (get_field "limits" fs)
  some (record {
    id = id;
    title = title;
    summary = summary;
    stakeholders = stakeholders;
    deliverables = deliverables;
    acceptance = acceptance;
    constraints = constraints;
    budgets = budgets;
    out_of_scope = out_of_scope;
    components = components;
    gate_defs = gate_defs;
    contracts = contracts;
    harness_dir = harness_dir;
    baseline_from = baseline_from;
    limits = limits;
  })

-- the fields behind `out_of_scope`, in the order of the dataclass
abbrev pub intent_rest_fields : IntentSpec → Fields
intent_rest_fields s = field "components" (array (object_items component_fields s.components)) (
    field "gate_defs" (array (object_items gate_fields s.gate_defs)) (
      field "contracts" (array (object_items contract_fields s.contracts)) (
        field "harness_dir" (text s.harness_dir) (
          field "baseline_from" (text s.baseline_from)
            (field "limits" (object (float_fields s.limits)) end)))))

abbrev pub intent_fields : IntentSpec → Fields
intent_fields s = field "id" (text s.id) (
    field "title" (text s.title) (
      field "summary" (text s.summary) (
        field "stakeholders" (texts s.stakeholders) (
          field "deliverables" (texts s.deliverables) (
            field "acceptance" (array (object_items criterion_fields s.acceptance)) (
              field "constraints" (texts s.constraints) (
                field "budgets" (object (value_fields s.budgets))
                  (field "out_of_scope" (texts s.out_of_scope) (intent_rest_fields s)))))))))
