-- ===== src/Compile/Document/Refusals.antt =====
-- Why minifleet/compile.py refuses a document that its rules could read.
use minifleet.Prelude.{
  String, ◌≡◌, refl, Bool, true, false, not, ◌&&◌, Option, none, some, List, ◌==◌, map, is_empty,
  subset, All, All-mono, IfSome, IfSome-some, arith,
}
use minifleet.Model.{Fields, Gate, IntentSpec}
use minifleet.Model.Codec.{◌>>=◌}
use minifleet.Intent.{validate}
use minifleet.Gatelib.{Formats}
use minifleet.Compile.{bullets, build_acceptance}
use minifleet.Compile.Bound.{build_acceptance-AreBound}
use minifleet.Compile.Budgets.{parse_budgets, parse_limits}
use minifleet.Compile.Budgets.Numbers.{
  IsExact, AreExact, AreLimits, parse_budgets-IfExact, parse_limits-IfLimits,
}
use minifleet.Compile.Components.{Pathlib, components_from_deliverables}
use minifleet.Compile.Document.{
  ids_of, read_gates, value_of, judging_gates, require, component_ids_of, harness_dir_of,
  draft_document,
}
use minifleet.Compile.Document.Dependencies.{AreDerived, components_from_deliverables-AreDerived}
use minifleet.Compile.Document.Flaws.{CanArise, validate-CanArise}
use minifleet.Compile.Document.Judged.{IsJudged, judging_gates-IsJudged}
use minifleet.Compile.Gates.{project_roots}
use minifleet.Scheduler.Repair.{sorted_set}
use minifleet.Compile.Sections.{Texts, parse_sections, lines_at, key_values}
use minifleet.Compile.Document.Numbered.{IsNumbered, IsDistinct, build_acceptance-IfNumbered}
use minifleet.Compile.Document.Settled.{IsGood, subset_trans, whole_draft-IsGood}

bind-IfSome {ℓ κ} :
    {A : Type ℓ} {B : Type κ} (P : B → Type 0) (o : Option A) (f : A → Option B)
    → ((a : A) → o ≡ some a → IfSome P (f a))
    → IfSome P (o >>= f)
bind-IfSome P none f h = tt
bind-IfSome P (some a) f h = h a refl

require-true : (b : Bool) (u : Unit {0}) → require b ≡ some u → b ≡ true
require-true true u e = refl
require-true false u e = absurd (ground (arith, e))

and-true : (a b : Bool) → a && b ≡ true → (a ≡ true) × (b ≡ true)
and-true a b h = ground arith

module _ (paths : Pathlib) (texts : Texts) (fmt : Formats) (exact : IsExact texts)
    (distinct : IsDistinct paths.decimal) where
  draft_document-IfGood :
      (document : String) → IfSome IsGood (draft_document paths texts fmt document)
  unfolding draft_document
  draft_document-IfGood document =
      let parse = parse_sections texts document in
      let sections = parse.sections in
      let meta = key_values texts (lines_at "meta" sections) in
      let items = bullets (lines_at "deliverables" sections) in
      bind-IfSome IsGood (require (not (parse.title == "") && not (is_empty items))) _
        (λ u required.
          let (titled, listed) =
            and-true (not (parse.title == "")) (not (is_empty items))
              (require-true (not (parse.title == "") && not (is_empty items)) u required) in
          let delivered : is_empty items ≡ false = ground (arith, listed) in
          bind-IfSome IsGood (components_from_deliverables paths items) _ (λ derived e.
            let (within, some_derived) =
              IfSome-some AreDerived (components_from_deliverables paths items) derived
                (components_from_deliverables-AreDerived paths items delivered) e in
            let known = component_ids_of derived.0 in
            bind-IfSome IsGood (require (subset derived.1 known)) _ (λ v checked.
              let declared = require-true (subset derived.1 known) v checked in
              bind-IfSome IsGood (parse_budgets texts sections) _ (λ budgets b.
                let thresholds =
                  IfSome-some AreExact (parse_budgets texts sections) budgets
                    (parse_budgets-IfExact texts exact sections) b in
                let ids = sorted_set known in
                let roots = project_roots paths derived.0 in
                let directory = harness_dir_of texts meta sections in
                let made = judging_gates texts fmt meta sections ids roots directory budgets in
                bind-IfSome IsGood made _ (λ gates g.
                  let judged =
                    IfSome-some (IsJudged (map value_of budgets)) made gates
                      (judging_gates-IsJudged texts fmt meta sections ids roots directory budgets
                        thresholds)
                      g in
                  bind-IfSome IsGood
                    (build_acceptance paths.decimal (ids_of gates) (lines_at "acceptance" sections))
                    _
                    (λ acceptance a.
                      let (bound, count, criteria) =
                        build_acceptance-AreBound paths.decimal (ids_of gates)
                          (lines_at "acceptance" sections) acceptance judged.2 a in
                      bind-IfSome IsGood (parse_limits texts meta) _ (λ limits l.
                        whole_draft-IsGood texts parse meta derived.0 budgets gates acceptance
                          limits fmt paths.decimal distinct
                          (record {
                            delivered = delivered;
                            derived = some_derived;
                            known =
                                All-mono derived.0
                                  (λ c h.
                                    subset_trans c.depends_on derived.1 (component_ids_of derived.0)
                                      h declared)
                                  within;
                            gated = judged;
                            bound = bound;
                            numbered =
                                IfSome-some (IsNumbered paths.decimal 1)
                                  (build_acceptance paths.decimal (ids_of gates)
                                    (lines_at "acceptance" sections))
                                  acceptance
                                  (build_acceptance-IfNumbered paths.decimal (ids_of gates)
                                    (lines_at "acceptance" sections))
                                  a;
                            criteria = criteria;
                            within_limits =
                                IfSome-some AreLimits (parse_limits texts meta) limits
                                  (parse_limits-IfLimits texts meta) l;
                          }))))))))

-- If `float` makes no NaN of a decimal text, and different numbers have different texts: a document
-- that the rules can read is refused only for gates or components of one id, for a limit that is
-- not positive, or for overlapping write scopes. All its gates are read back, and `validate` finds
-- nothing else.
pub draft_document-CanArise :
    (paths : Pathlib) (texts : Texts) (fmt : Formats) (fnmatch : String → String → Bool)
    (document : String) (spec : IntentSpec) (gates : List Fields)
    → IsExact texts
    → IsDistinct paths.decimal
    → draft_document paths texts fmt document ≡ some (spec, gates)
    → (gs : List Gate) × (read_gates gates ≡ some gs)
      × All CanArise (validate fnmatch (record spec { gate_defs = gs }))
draft_document-CanArise paths texts fmt fnmatch document spec gates exact distinct e =
    let (gs, read, settled) =
      IfSome-some IsGood (draft_document paths texts fmt document) (spec, gates)
        (draft_document-IfGood paths texts fmt exact distinct document) e in
    (gs, read, validate-CanArise fnmatch (record spec { gate_defs = gs }) settled)
