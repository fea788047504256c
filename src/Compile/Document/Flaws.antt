-- ===== src/Compile/Document/Flaws.antt =====
-- The flaws of minifleet/intent.py that an intent from the rules of minifleet/compile.py can have.
use minifleet.Prelude.{
  ℕ, suc, String, ◌≡◌, refl, Bool, true, false, not, ◌&&◌, List, [], ◌∷◌, ◌++◌, ◌==◌, concat_map,
  filter-nil_of_All, is_empty, contains, subset, All, All-append, All-mono, Dict, insert, if-both,
  arith,
}
use minifleet.Model.{
  Float, Value, AcceptanceCriterion, Component, IntentSpec, finite, pos, le_float,
}
use minifleet.Scheduler.Scope.{scopes_overlap}
use minifleet.Intent.{
  Flaw, flaw_if, strangers, has_duplicates, is_numeric, gate_ids, criterion_ids, component_ids,
  criterion_flaws, limit_names, limit_flaws, gate_flaws, component_flaws, claimed, overlaps,
  scope_flaws, findings, validate,
}
use minifleet.Compile.Document.Numbered.{IsNumbered, IsDistinct, IsFresh, cons-IsFresh}
use minifleet.Intent.Checked.{IsLinked}

-- Gates or components of one id, a limit that is not positive, or overlapping write scopes.
pub CanArise : Flaw → Type 0
CanArise Flaw.duplicate_gates = Unit
CanArise Flaw.duplicate_components = Unit
CanArise (Flaw.bad_limit name) = Unit
CanArise (Flaw.overlap path seen owner) = Unit
CanArise f = ⊥

abbrev AllArise : List Flaw → Type 0
AllArise fs = All CanArise fs

both-AllArise : (fs gs : List Flaw) → AllArise fs → AllArise gs → AllArise (fs ++ gs)
both-AllArise fs gs h k = All-append CanArise fs gs h k

flaw_if-AllArise : (b : Bool) (f : Flaw) → CanArise f → AllArise (flaw_if b f)
flaw_if-AllArise b f h = if-both AllArise b (h, tt) tt

strangers-none :
    (f : String → Flaw) (known names : List String)
    → subset names known ≡ true
    → strangers f known names ≡ []
strangers-none f known [] h = refl
strangers-none f known (n ∷ ns) h = ground (arith, strangers-none f known ns)

pub criterion_flaws-none :
    (decimal : ℕ → String) (distinct : IsDistinct decimal) (gates seen : List String) (k : ℕ)
    (cs : List AcceptanceCriterion)
    → IsNumbered decimal k cs
    → IsFresh decimal k seen
    → All (λ c. subset c.gates gates ≡ true) cs
    → criterion_flaws gates seen cs ≡ []
criterion_flaws-none decimal distinct gates seen k [] n f h = refl
criterion_flaws-none decimal distinct gates seen k (c ∷ cs) (e, n) f (h, hs) =
    let next = cons-IsFresh decimal distinct k c.id seen e f in
    let unseen : contains seen c.id ≡ false = rw e (f k (omega arith)) in
    rw (
      unseen,
      strangers-none (Flaw.criterion_gate c.id) gates c.gates h,
      criterion_flaws-none decimal distinct gates (c.id ∷ seen) (suc k) cs n next hs,
    )

limits-AllArise :
    (limits : Dict Float)
    → All (λ (name, x). contains limit_names name ≡ true) limits
    → AllArise (concat_map limit_flaws limits)
unfolding CanArise
limits-AllArise [] h = tt
limits-AllArise ((name, x) ∷ limits) (h, hs) =
    let rest = limits-AllArise limits hs in
    let bad = le_float x (finite (pos 0)) in
    rw h (
      both-AllArise (flaw_if bad (Flaw.bad_limit name)) (concat_map limit_flaws limits)
        (flaw_if-AllArise bad (Flaw.bad_limit name) tt) rest)

concat-AllArise : (ls : List (List Flaw)) → All AllArise ls → AllArise (concat_map (λ l. l) ls)
concat-AllArise [] h = tt
concat-AllArise (l ∷ ls) (h, hs) = both-AllArise l _ h (concat-AllArise ls hs)

concat_map-none {ℓ} :
    {A : Type ℓ} (f : A → List Flaw) (xs : List A) → All (λ x. f x ≡ []) xs → concat_map f xs ≡ []
concat_map-none f [] h = refl
concat_map-none f (x ∷ xs) (h, hs) = rw (h, concat_map-none f xs hs)

component-none :
    (spec : IntentSpec) (c : Component)
    → IsLinked spec c
    → component_flaws (component_ids spec) (criterion_ids spec) (gate_ids spec) c ≡ []
component-none spec c (d, a, g) = rw (
  strangers-none (Flaw.unknown_component c.id) (component_ids spec) c.depends_on d,
  strangers-none (Flaw.unknown_criterion c.id) (criterion_ids spec) c.acceptance_ids a,
  strangers-none (Flaw.component_gate c.id) (gate_ids spec) c.gate_ids g,
)

module _ (fnmatch : String → String → Bool) where
  overlaps-AllArise :
      (path id : String) (owners : Dict String) → AllArise (overlaps fnmatch path id owners)
  unfolding CanArise
  overlaps-AllArise path id [] = tt
  overlaps-AllArise path id ((seen, owner) ∷ rest) =
      let b = not (owner == id) && scopes_overlap fnmatch path seen in
      both-AllArise (flaw_if b (Flaw.overlap path seen owner)) (overlaps fnmatch path id rest)
        (flaw_if-AllArise b (Flaw.overlap path seen owner) tt) (overlaps-AllArise path id rest)

  scope_flaws-AllArise :
      (owners : Dict String) (pairs : List (String × String))
      → AllArise (scope_flaws fnmatch owners pairs)
  scope_flaws-AllArise owners [] = tt
  scope_flaws-AllArise owners ((path, id) ∷ rest) =
      both-AllArise (overlaps fnmatch path id owners)
        (scope_flaws fnmatch (insert path id owners) rest) (overlaps-AllArise path id owners)
        (scope_flaws-AllArise (insert path id owners) rest)

-- What an intent has, whatever its duplicates, its limits and its write scopes.
pub record IsSettled (spec : IntentSpec) : Type 0 where
  pub has_id : (spec.id == "") ≡ false
  pub has_deliverables : is_empty spec.deliverables ≡ false
  pub has_acceptance : is_empty spec.acceptance ≡ false
  pub has_components : is_empty spec.components ≡ false
  pub criteria_sound : criterion_flaws (gate_ids spec) [] spec.acceptance ≡ []
  pub numeric : All (λ (name, v). not (is_numeric v) ≡ false) spec.budgets
  pub limits_known : All (λ (name, x). contains limit_names name ≡ true) spec.limits
  pub gates_sound : All (λ g. gate_flaws spec.budgets g ≡ []) spec.gate_defs
  pub linked : All (IsLinked spec) spec.components

pub validate-CanArise :
    (fnmatch : String → String → Bool) (spec : IntentSpec)
    → IsSettled spec
    → All CanArise (validate fnmatch spec)
unfolding validate CanArise
validate-CanArise fnmatch spec h =
    let ids = flaw_if-AllArise (has_duplicates (gate_ids spec)) Flaw.duplicate_gates tt in
    let numbers =
      filter-nil_of_All (λ (b : String × Value). not (is_numeric b.1)) spec.budgets h.numeric in
    let sound = concat_map-none (gate_flaws spec.budgets) spec.gate_defs h.gates_sound in
    let components =
      concat_map-none (component_flaws (component_ids spec) (criterion_ids spec) (gate_ids spec))
        spec.components (All-mono spec.components (component-none spec) h.linked) in
    concat-AllArise (findings fnmatch spec) (
      rw h.has_id tt,
      (
        rw h.has_deliverables tt,
        (
          rw h.has_acceptance tt,
          (
            rw h.has_components tt,
            (
              ids,
              (
                rw h.criteria_sound tt,
                (
                  rw numbers tt,
                  (
                    limits-AllArise spec.limits h.limits_known,
                    (
                      rw sound tt,
                      (
                        flaw_if-AllArise (has_duplicates (component_ids spec))
                            Flaw.duplicate_components tt,
                        (rw components tt, (scope_flaws-AllArise fnmatch [] (claimed spec), tt)),
                      ),
                    ),
                  ),
                ),
              ),
            ),
          ),
        ),
      ),
    )
