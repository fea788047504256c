-- ===== src/Compile/Document/Numbered.antt =====
-- The ids of the acceptance criteria that minifleet/compile.py numbers.
use Prim.Native.String.{◌++◌ as append}
use text.Mathlib.TextLemmas.{append_cancel_left}
use minifleet.Prelude.{
  ℕ, suc, ◌≤◌, String, ◌≡◌, refl, inl, inr, false, Option, none, some, List, [], ◌∷◌, ◌==◌,
  contains, Bool-cases, Option-cases, IfSome, IfSome-some, arith, eq_iff,
}
use minifleet.Model.{AcceptanceCriterion}
use minifleet.Compile.{bind_item, criteria_from, unless_empty, bullets, build_acceptance}

module _ (decimal : ℕ → String) where
  abbrev pub numbered_id : ℕ → String
  numbered_id n = append "A-" (decimal n)

  -- The ids are those of the numbers from `k` on.
  abbrev pub IsNumbered : ℕ → List AcceptanceCriterion → Type 0
  IsNumbered k [] = Unit
  IsNumbered k (c ∷ cs) = (c.id ≡ numbered_id k) × IsNumbered (suc k) cs

  criteria_from-IfNumbered :
      (known : List String) (index : ℕ) (items : List String)
      → IfSome (IsNumbered index) (criteria_from decimal known index items)
  unfolding criteria_from
  criteria_from-IfNumbered known index [] = tt
  criteria_from-IfNumbered known index (item ∷ items) =
      let rest = criteria_from-IfNumbered known (suc index) items in
      elim (Option-cases (bind_item known item)) [
        | inl e ↦ rw (criteria_from, e) tt
        | inr ((statement, gates), e) ↦
            elim (Option-cases (criteria_from decimal known (suc index) items)) [
              | inl e2 ↦ rw (criteria_from, e, e2) tt
              | inr (cs, e2) ↦
                  rw (criteria_from, e, e2)
                    (refl, IfSome-some (IsNumbered (suc index)) _ cs rest e2)
            ]
      ]

  unless_empty-IfNumbered :
      (o : Option (List AcceptanceCriterion))
      → IfSome (IsNumbered 1) o
      → IfSome (IsNumbered 1) (unless_empty o)
  unless_empty-IfNumbered none h = tt
  unless_empty-IfNumbered (some []) h = tt
  unless_empty-IfNumbered (some (c ∷ cs)) h = h

  pub build_acceptance-IfNumbered :
      (known lines : List String) → IfSome (IsNumbered 1) (build_acceptance decimal known lines)
  unfolding build_acceptance
  build_acceptance-IfNumbered known lines =
      unless_empty-IfNumbered (criteria_from decimal known 1 (bullets lines))
        (criteria_from-IfNumbered known 1 (bullets lines))

  -- Different numbers have different texts.
  abbrev pub IsDistinct : Type 0
  IsDistinct = (m n : ℕ) → decimal m ≡ decimal n → m ≡ n

  numbered_id-differ : IsDistinct → (k j : ℕ) → suc k ≤ j → (numbered_id k == numbered_id j) ≡ false
  numbered_id-differ distinct k j less = elim (Bool-cases (numbered_id k == numbered_id j)) [
    | inr e ↦ e
    | inl e ↦
        let same : numbered_id k ≡ numbered_id j = (eq_iff (numbered_id k) (numbered_id j)).0 e in
        let number : k ≡ j = distinct k j (append_cancel_left "A-" (decimal k) (decimal j) same) in
        absurd (omega (arith, number, less))
  ]

  -- No id from `k` on has been seen.
  abbrev pub IsFresh : ℕ → List String → Type 0
  IsFresh k seen = (j : ℕ) → k ≤ j → contains seen (numbered_id j) ≡ false

  pub cons-IsFresh :
      IsDistinct
      → (k : ℕ) (id : String) (seen : List String) → id ≡ numbered_id k
      → IsFresh k seen
      → IsFresh (suc k) (id ∷ seen)
  cons-IsFresh distinct k id seen e fresh j less =
      let differ = numbered_id-differ distinct k j less in
      let unseen : contains seen (numbered_id j) ≡ false = fresh j (omega (arith, less)) in
      rw (e, differ) unseen
