-- ===== src/Compile/Document/Settled.antt =====
-- The intent that minifleet/compile.py makes of the parts of a document.
use minifleet.Prelude.{
  ℕ, String, ◌≡◌, refl, sym, subst, inl, inr, true, false, not, some, List, [], ◌∷◌, ◌++◌, ◌==◌,
  map, is_empty, contains, subset, subset_of_contains, subset-contains, All, All-mono, Dict,
  Bool-cases, Option-cases, arith,
}
use minifleet.Model.{Float, Fields, AcceptanceCriterion, Component, Contract, Gate, IntentSpec}
use minifleet.Model.Codec.{gate_of}
use minifleet.Intent.{is_numeric, component_ids, criterion_ids, gate_ids}
use minifleet.Intent.Checked.{IsLinked}
use minifleet.Gatelib.{Formats, files_present}
use minifleet.Gatelib.Usable.{Template, IsAccepted, fields_of-IsAccepted}
use minifleet.Compile.{bullets}
use minifleet.Compile.Bound.{IsBound}
use minifleet.Compile.Budgets.Numbers.{AreLimits}
use minifleet.Compile.Document.{
  ids_of, read_gates, value_of, path_of_item, layout_title, intent_from, Draft, bind_component,
  with_contracts, component_ids_of,
}
use minifleet.Compile.Document.Flaws.{IsSettled, criterion_flaws-none}
use minifleet.Compile.Document.Numbered.{IsNumbered, IsDistinct}
use minifleet.Compile.Document.Judged.{IsRead, read_gates-IsRead, IsJudged, ids_of-append_left}
use minifleet.Compile.Gates.Usable.{append-AreUsable}
use minifleet.Compile.Names.{text_or_else, slug_words, slug, contracts_from_sections}
use minifleet.Compile.Sections.{Texts, Parse, lines_at, value_at}

-- The gates are read back, and the intent with them is settled.
abbrev pub IsGood : Draft → Type 0
IsGood (spec, gates) =
    (gs : List Gate) × (read_gates gates ≡ some gs) × IsSettled (record spec { gate_defs = gs })

text_or_else-nonempty :
    (given default : String) → (default == "") ≡ false → (text_or_else given default == "") ≡ false
text_or_else-nonempty given default h = elim (Bool-cases (given == "")) [
  | inl e ↦ rw e h
  | inr e ↦ rw e e
]

subset_refl : (xs : List String) → subset xs xs ≡ true
subset_refl xs = subset_of_contains xs xs (λ a m. m)

pub subset_trans :
    (xs ys zs : List String) → subset xs ys ≡ true → subset ys zs ≡ true → subset xs zs ≡ true
subset_trans xs ys zs h k =
    subset_of_contains xs zs (λ a m. subset-contains ys zs a k (subset-contains xs ys a h m))

numbers-numeric :
    (d : Dict (String × Float)) → All (λ (name, v). not (is_numeric v) ≡ false) (map value_of d)
numbers-numeric [] = tt
numbers-numeric ((k, (op, x)) ∷ d) = (refl, numbers-numeric d)

map-nonempty {ℓ κ} :
    {A : Type ℓ} {B : Type κ} (f : A → B) (xs : List A)
    → is_empty xs ≡ false
    → is_empty (map f xs) ≡ false
map-nonempty f [] h = absurd (ground (arith, h))
map-nonempty f (x ∷ xs) h = refl

slug-nonempty : (texts : Texts) (title : String) → (slug texts title == "") ≡ false
unfolding slug
slug-nonempty texts title = text_or_else-nonempty (slug_words texts title) "intent" refl

ids-bind_component :
    (ks : List Contract) (acs : List AcceptanceCriterion) (cs : List Component)
    → component_ids_of (map (λ c. bind_component acs (with_contracts ks c)) cs)
      ≡ component_ids_of cs
ids-bind_component ks acs [] = refl
ids-bind_component ks acs (c ∷ cs) = rw (ids-bind_component ks acs cs) refl

bind_component-IsLinked :
    (spec : IntentSpec) (ks : List Contract) (cs : List Component)
    → All (λ c. subset c.depends_on (component_ids spec) ≡ true) cs
    → contains (gate_ids spec) "G-unit" ≡ true
    → All (IsLinked spec) (map (λ c. bind_component spec.acceptance (with_contracts ks c)) cs)
bind_component-IsLinked spec ks [] h u = tt
bind_component-IsLinked spec ks (c ∷ cs) (h, hs) u =
    ((h, subset_refl (criterion_ids spec), rw u refl), bind_component-IsLinked spec ks cs hs u)

-- What the steps of the rules have found out.
pub record IsPrepared (decimal : ℕ → String) (parse : Parse) (components : List Component)
    (budgets : Dict (String × Float)) (gates : List Fields) (acceptance : List AcceptanceCriterion)
    (limits : Dict Float) : Type 0 where
  pub delivered : is_empty (bullets (lines_at "deliverables" parse.sections)) ≡ false
  pub derived : is_empty components ≡ false
  pub known : All (λ c. subset c.depends_on (component_ids_of components) ≡ true) components
  pub gated : IsJudged (map value_of budgets) gates
  pub bound : All (λ c. IsBound (ids_of gates) c.gates) acceptance
  pub numbered : IsNumbered decimal 1 acceptance
  pub criteria : is_empty acceptance ≡ false
  pub within_limits : AreLimits limits

module _ (texts : Texts) (parse : Parse) (meta : Dict String) (components : List Component)
    (budgets : Dict (String × Float)) (gates : List Fields) (acceptance : List AcceptanceCriterion)
    (limits : Dict Float) where
  abbrev whole_draft : Draft
  whole_draft =
      let items = bullets (lines_at "deliverables" parse.sections) in
      (
        intent_from texts parse meta components budgets acceptance limits,
        gates ++ files_present (map path_of_item items) layout_title ∷ [],
      )

  abbrev contracts : List Contract
  contracts = contracts_from_sections parse.sections

  in_all :
      (a : String) → contains (ids_of gates) a ≡ true → contains (ids_of whole_draft.1) a ≡ true
  in_all a h = ids_of-append_left a gates _ h

  pub whole_draft-IsGood :
      Formats
      → (decimal : ℕ → String) → IsDistinct decimal
      → IsPrepared decimal parse components budgets gates acceptance limits
      → IsGood whole_draft
  whole_draft-IsGood fmt decimal distinct h =
      let items = bullets (lines_at "deliverables" parse.sections) in
      let (spec, all_gates) = whole_draft in
      let paths = map path_of_item items in
      let layout = files_present paths layout_title in
      let (usable, unit, regression) = h.gated in
      let laid : IsAccepted (map value_of budgets) (gate_of layout) =
        fields_of-IsAccepted (map value_of budgets) fmt (Template.files_template paths layout_title)
          (map-nonempty path_of_item items h.delivered) in
      let read =
        read_gates-IsRead (map value_of budgets) all_gates
          (append-AreUsable (map value_of budgets) gates (layout ∷ []) usable (laid, tt)) in
      elim (Option-cases (read_gates all_gates)) [
        | inl e ↦ let never : ⊥ = rw e at read in absurd never
        | inr (gs, e) ↦
            let kept : IsRead (map value_of budgets) (ids_of all_gates) (some gs) = rw e at read in
            (gs, e, settled gs kept)
      ]
    where
      settled :
          (gs : List Gate)
          → IsRead (map value_of budgets) (ids_of whole_draft.1) (some gs)
          → IsSettled (record whole_draft.0 { gate_defs = gs })
      settled gs (sound, ids) =
          let known_gates =
            subst (λ l. All (λ c. subset c.gates l ≡ true) acceptance) (sym ids)
              (All-mono acceptance
                (λ c b.
                  subset_trans c.gates (ids_of gates) (ids_of whole_draft.1) b.1
                    (subset_of_contains (ids_of gates) (ids_of whole_draft.1) in_all))
                h.bound) in
          record {
            has_id =
                text_or_else-nonempty (value_at "id" meta) (slug texts parse.title)
                  (slug-nonempty texts parse.title);
            has_deliverables = h.delivered;
            has_acceptance = h.criteria;
            has_components =
                map-nonempty (λ c. bind_component acceptance (with_contracts contracts c))
                  components h.derived;
            criteria_sound =
                criterion_flaws-none decimal distinct (map (λ g. g.id) gs) [] 1 acceptance
                  h.numbered (λ j less. refl) known_gates;
            numeric = numbers-numeric budgets;
            limits_known = h.within_limits;
            gates_sound = sound;
            linked =
                let known = sym (ids-bind_component contracts acceptance components) in
                bind_component-IsLinked (record whole_draft.0 { gate_defs = gs }) contracts
                  components
                  (subst (λ l. All (λ c. subset c.depends_on l ≡ true) components) known h.known)
                  (subst (λ l. contains l "G-unit" ≡ true) (sym ids) (in_all "G-unit" h.gated.1));
          }
