-- ===== src/Compile/Document/Judged.antt =====
-- The gates of a document that minifleet/compile.py reads: what they are when they are read back.
use minifleet.Prelude.{
  String, ◌≡◌, refl, inl, inr, true, Option, none, some, List, [], ◌∷◌, ◌++◌, map, is_empty,
  contains, minus, All, Dict, Option-cases, IfSome, if-both, arith,
}
use minifleet.Model.{Float, Value, text, Fields, get_field, field_names, Gate}
use minifleet.Model.Codec.{◌>>=◌, as_text, gate_of, gate_payload, gate_keys}
use minifleet.Intent.{gate_flaws}
use minifleet.Gatelib.{
  Formats, default_unit, default_regression, default_timeout, unit_suite, regression,
}
use minifleet.Gatelib.Usable.{Template, IsAccepted, fields_of-IsAccepted}
use minifleet.Compile.{bullets}
use minifleet.Compile.Budgets.Numbers.{AreExact}
use minifleet.Compile.Components.{split_list}
use minifleet.Compile.Document.{id_of_gate, ids_of, read_gates, value_of, judging_gates}
use minifleet.Compile.Gates.{
  parse_probes, parse_harness, policy_gates, harness_part, service_part, budget_part, deploy_part,
}
use minifleet.Compile.Gates.Usable.{
  AreUsable, append-AreUsable, parse_probes-AreUsable, parse_harness-AreUsable,
  policy_gates-AreUsable, harness_part-AreUsable, service_part-AreUsable, deploy_part-IfUsable,
  budget_part-AreUsable,
}
use minifleet.Compile.Sections.{Texts, lines_at, value_at, key_values}

abbrev IfId : String → Option Gate → Type 0
IfId id none = Unit
IfId id (some g) = g.id ≡ id

bind-IfId {ℓ} :
    {A : Type ℓ} (id : String) (o : Option A) (f : A → Option Gate)
    → ((a : A) → IfId id (f a))
    → IfId id (o >>= f)
bind-IfId id none f h = tt
bind-IfId id (some a) f h = h a

gate_payload-IfId : (gate : Fields) → IfId (id_of_gate gate) (gate_payload gate)
unfolding gate_payload
gate_payload-IfId gate = by_text (get_field "id" gate) _ (λ id. search bind-IfId depth 40)
  where
    by_text :
        (o : Option Value) (f : String → Option Gate)
        → ((id : String) → IfId id (f id))
        → IfId (elim o [ some (text s) ↦ s | _ ↦ "" ]) (as_text o >>= f)
    by_text (some (text s)) f h = h s
    by_text o f h = tt

gate_of-IfId : (gate : Fields) → IfId (id_of_gate gate) (gate_of gate)
unfolding gate_of
gate_of-IfId gate =
    if-both (IfId (id_of_gate gate)) (is_empty (minus (field_names gate) gate_keys))
      (gate_payload-IfId gate) tt

-- The gates are read: no flaw is in them, and they have the ids of their dicts.
abbrev pub IsRead : Dict Value → List String → Option (List Gate) → Type 0
IsRead budgets ids none = ⊥
IsRead budgets ids (some gs) = All (λ g. gate_flaws budgets g ≡ []) gs × (map (λ g. g.id) gs ≡ ids)

pub read_gates-IsRead :
    (budgets : Dict Value) (gates : List Fields)
    → AreUsable budgets gates
    → IsRead budgets (ids_of gates) (read_gates gates)
unfolding read_gates
read_gates-IsRead budgets [] h = (tt, refl)
read_gates-IsRead budgets (gate ∷ gates) (h, hs) =
    let rest = read_gates-IsRead budgets gates hs in
    elim (Option-cases (gate_of gate)) [
      | inl e ↦ let never : ⊥ = rw e at h in absurd never
      | inr (g, e) ↦
          let sound : gate_flaws budgets g ≡ [] = rw e at h in
          let same : g.id ≡ id_of_gate gate = rw e at (gate_of-IfId gate) in
          elim (Option-cases (read_gates gates)) [
            | inl e2 ↦ let never : ⊥ = rw e2 at rest in absurd never
            | inr (gs, e2) ↦
                let more : IsRead budgets (ids_of gates) (some gs) = rw e2 at rest in
                rw (read_gates, e, e2) ((sound, more.0), rw (same, more.1))
          ]
    ]

-- The gates are usable, and the workers' gate and the regression gate are among them.
abbrev pub IsJudged : Dict Value → List Fields → Type 0
IsJudged budgets gates =
    AreUsable budgets gates
    × (contains (ids_of gates) "G-unit" ≡ true)
    × (contains (ids_of gates) "G-regression" ≡ true)

ids_of-append_right :
    (a : String) (gs hs : List Fields)
    → contains (ids_of hs) a ≡ true
    → contains (ids_of (gs ++ hs)) a ≡ true
ids_of-append_right a [] hs h = h
ids_of-append_right a (g ∷ gs) hs h = ground (arith, ids_of-append_right a gs hs h)

pub ids_of-append_left :
    (a : String) (gs hs : List Fields)
    → contains (ids_of gs) a ≡ true
    → contains (ids_of (gs ++ hs)) a ≡ true
ids_of-append_left a [] hs h = absurd (ground (arith, h))
ids_of-append_left a (g ∷ gs) hs h = ground (arith, ids_of-append_left a gs hs)

module _ (texts : Texts) (fmt : Formats) where
  pub judging_gates-IsJudged :
      (meta : Dict String) (sections : Dict (List String)) (known roots : List String)
      (directory : String) (budgets : Dict (String × Float))
      → AreExact budgets
      → IfSome
          (IsJudged (map value_of budgets))
          (judging_gates texts fmt meta sections known roots directory budgets)
  unfolding judging_gates
  judging_gates-IsJudged meta sections known roots directory budgets exact =
      let declared = map value_of budgets in
      let usable =
        deploy_part-IfUsable declared fmt texts (key_values texts (lines_at "deploy" sections)) in
      let harness = parse_harness texts sections known in
      let first = harness_part directory known harness in
      let service = key_values texts (lines_at "service" sections) in
      let constraints = bullets (lines_at "constraints" sections) in
      let network = split_list (value_at "network_allow" meta) in
      let standard = split_list (value_at "stdlib_allow" meta) in
      let policy = policy_gates texts constraints roots network standard in
      let tested : IsAccepted declared (gate_of (regression default_regression default_timeout)) =
        fields_of-IsAccepted declared fmt
          (Template.regression_template default_regression default_timeout) refl in
      let unit : IsAccepted declared (gate_of (unit_suite default_unit default_timeout)) =
        fields_of-IsAccepted declared fmt (Template.unit_template default_unit default_timeout)
          refl in
      elim (Option-cases (deploy_part texts fmt (key_values texts (lines_at "deploy" sections)))) [
        | inl e ↦ rw (judging_gates, e) tt
        | inr (deploy, e) ↦
            let deployed : AreUsable declared deploy = rw e at usable in
            let last = deploy ++ budget_part fmt budgets in
            let probes = parse_probes sections ++ last in
            let tail = regression default_regression default_timeout ∷ probes in
            let middle = service_part service ++ (policy ++ tail) in
            let found = ids_of-append_right "G-regression" first middle (
              ids_of-append_right "G-regression" (service_part service) (policy ++ tail)
                (ids_of-append_right "G-regression" policy tail refl)) in
            let probed =
              append-AreUsable declared (parse_probes sections) last
                (parse_probes-AreUsable declared fmt sections)
                (append-AreUsable declared deploy (budget_part fmt budgets) deployed
                  (budget_part-AreUsable fmt budgets exact)) in
            let all_usable =
              append-AreUsable declared first middle
                (harness_part-AreUsable declared fmt directory known harness
                  (parse_harness-AreUsable declared fmt texts sections known))
                (append-AreUsable declared (service_part service) (policy ++ tail)
                  (service_part-AreUsable declared fmt service)
                  (append-AreUsable declared policy tail
                    (policy_gates-AreUsable declared fmt texts constraints roots network standard)
                    (tested, probed))) in
            let judged : IsJudged declared
                (unit_suite default_unit default_timeout ∷ (first ++ middle)) =
              ((unit, all_usable), refl, found) in
            rw (judging_gates, e) judged
      ]
