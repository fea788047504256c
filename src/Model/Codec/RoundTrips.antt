-- ===== src/Model/Codec/RoundTrips.antt =====
-- What is written is read back.
use minifleet.Prelude.{
  ℕ, suc, ◌*◌, ◌-◌, ◌<◌, String, Option, some, List, [], ◌∷◌, ◌≡◌, refl, ap, arith,
}
use native.Mathlib.Nat.{mul-div_cancel}
use minifleet.Model.{
  ℤ, pos, negsuc, Float, quanta, Value, Fields, AcceptanceCriterion, Contract, Component, Gate,
  IntentSpec,
}
use minifleet.Model.Codec.{
  text_items, texts_of, text_fields, pairs_of, whole, whole_of, multiple, whole_items, wholes_of,
  object_items, objects_of, value_fields, values_of, float_fields, floats_of, floats_or_empty,
  criterion_of, criterion_fields, contract_of, contract_fields, component_of, component_fields,
  gate_payload, gate_of, gate_fields,
}
use minifleet.Model.Codec.Intents.{intent_of, intent_fields}

pub texts_of-items : (xs : List String) → texts_of (text_items xs) ≡ some xs
unfolding texts_of
texts_of-items [] = refl
texts_of-items (x ∷ xs) = rw (texts_of-items xs) refl

pairs_of-fields : (xs : List (String × String)) → pairs_of (text_fields xs) ≡ some xs
unfolding pairs_of
pairs_of-fields [] = refl
pairs_of-fields ((k, x) ∷ xs) = rw (pairs_of-fields xs) refl

values_of-fields : (xs : List (String × Value)) → values_of (value_fields xs) ≡ xs
unfolding values_of
values_of-fields [] = refl
values_of-fields ((k, x) ∷ xs) = rw (values_of-fields xs) refl

floats_of-fields :
    (parse : String → Option Float) (xs : List (String × Float))
    → floats_of parse (float_fields xs) ≡ some xs
unfolding floats_of
floats_of-fields parse [] = refl
floats_of-fields parse ((k, x) ∷ xs) = rw (floats_of-fields parse xs) refl

floats_or_empty-fields :
    (parse : String → Option Float) (xs : List (String × Float))
    → floats_or_empty parse (some (Value.object (float_fields xs))) ≡ some xs
floats_or_empty-fields parse [] = refl
floats_or_empty-fields parse ((k, x) ∷ xs) = floats_of-fields parse ((k, x) ∷ xs)

objects_of-items :
    {A : Type 0} (encode : A → Fields) (decode : Fields → Option A)
    → ((a : A) → decode (encode a) ≡ some a)
    → (xs : List A) → objects_of decode (object_items encode xs) ≡ some xs
unfolding objects_of
objects_of-items encode decode h [] = refl
objects_of-items encode decode h (x ∷ xs) = rw (h x, objects_of-items encode decode h xs) refl

quanta_pos : 0 < quanta
unfolding quanta
quanta_pos = omega arith

multiple-mul : (n : ℕ) → multiple (n * quanta) ≡ some n
multiple-mul n = rw (mul-div_cancel n quanta_pos) (ground arith)

whole_of-whole : (n : ℤ) → whole_of (whole n) ≡ some n
whole_of-whole (pos n) = rw (multiple-mul n) refl
whole_of-whole (negsuc n) =
    let same : suc (suc n * quanta - 1) ≡ suc n * quanta = omega (arith, quanta_pos) in
    rw (same, multiple-mul (suc n)) (ap (λ k. some (negsuc k)) (omega arith))

wholes_of-items : (ns : List ℤ) → wholes_of (whole_items ns) ≡ some ns
unfolding wholes_of
wholes_of-items [] = refl
wholes_of-items (n ∷ ns) = rw (whole_of-whole n, wholes_of-items ns) refl

criterion_of-fields : (c : AcceptanceCriterion) → criterion_of (criterion_fields c) ≡ some c
unfolding criterion_of
criterion_of-fields c = rw (texts_of-items c.gates) refl

contract_of-fields : (c : Contract) → contract_of (contract_fields c) ≡ some c
unfolding contract_of
contract_of-fields c = rw (pairs_of-fields c.exports) refl

component_of-fields : (c : Component) → component_of (component_fields c) ≡ some c
unfolding component_of
component_of-fields c =
    rw
      (
        texts_of-items c.owns,
        texts_of-items c.depends_on,
        texts_of-items c.contract_ids,
        texts_of-items c.acceptance_ids,
        texts_of-items c.tests,
        texts_of-items c.done_when,
        texts_of-items c.gate_ids,
      )
      refl

-- A gate that is written and read again is the same gate.
pub gate_of-gate_fields : (g : Gate) → gate_of (gate_fields g) ≡ some g
unfolding gate_of gate_payload
gate_of-gate_fields g =
    rw (wholes_of-items g.expect_exit, texts_of-items g.paths, texts_of-items g.attributed_to) refl

-- An intent that is written by `to_dict` and read again by `from_dict` keeps everything but its
-- gates: they are written as `gate_defs` and looked for as `gates`, so the intent that is read has
-- none.
pub intent_of-intent_fields :
    (parse : String → Option Float) (s : IntentSpec)
    → intent_of parse (intent_fields s) ≡ some (record s { gate_defs = [] })
unfolding intent_of
intent_of-intent_fields parse s =
    rw
      (
        texts_of-items s.stakeholders,
        texts_of-items s.deliverables,
        objects_of-items criterion_fields criterion_of criterion_of-fields s.acceptance,
        texts_of-items s.constraints,
        values_of-fields s.budgets,
        texts_of-items s.out_of_scope,
        objects_of-items component_fields component_of component_of-fields s.components,
        objects_of-items contract_fields contract_of contract_of-fields s.contracts,
        floats_or_empty-fields parse s.limits,
      )
      refl
