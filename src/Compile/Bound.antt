-- ===== src/Compile/Bound.antt =====
-- Which gates the acceptance criteria of minifleet/compile.py are bound to.
use minifleet.Prelude.{
  ℕ, suc, String, ◌≡◌, refl, inl, inr, Bool, true, false, Option, none, some, List, [], ◌∷◌, ◌++◌,
  ◌==◌, filter, contains, is_empty, length, subset, subset_of_contains, contains-dedup,
  contains→Has, Has→contains, Has-filter, Has-sort_by, dedup, starts_with, str_le, All, Bool-cases,
  Option-cases, if-both, arith, subst, sym, ◌∙◌,
}
use minifleet.Model.{AcceptanceCriterion}
use minifleet.Scheduler.Repair.{sorted_set}
use minifleet.Compile.{
  is_harness_gate, harness_gates, budget_gates, gate_for, if_known, tagged_gates, untagged_gates,
  with_budgets, read_tag, bind_item, criteria_from, unless_empty, bullets, build_acceptance,
}

-- At least one gate, and all of them known.
abbrev pub IsBound : List String → List String → Type 0
IsBound known gates = (is_empty gates ≡ false) × (subset gates known ≡ true)

sorted_set-subset :
    (p : String → Bool) (xs : List String) → subset (sorted_set (filter p xs)) xs ≡ true
sorted_set-subset p xs = subset_of_contains (sorted_set (filter p xs)) xs (λ a m.
    let found = Has-sort_by str_le a (dedup (filter p xs)) (contains→Has _ a m) in
    let kept : contains (filter p xs) a ≡ true =
      sym (contains-dedup (filter p xs) a) ∙ Has→contains (dedup (filter p xs)) a found in
    Has→contains xs a (Has-filter p a xs (contains→Has (filter p xs) a kept)))

if_known-subset : (known : List String) (id : String) → subset (if_known known id) known ≡ true
if_known-subset known id = elim (Bool-cases (contains known id)) [
  | inl e ↦ rw (e, e) refl
  | inr e ↦ rw e refl
]

subset-append :
    (xs ys zs : List String)
    → subset xs zs ≡ true
    → subset ys zs ≡ true
    → subset (xs ++ ys) zs ≡ true
subset-append [] ys zs h k = k
subset-append (x ∷ xs) ys zs h k = ground (arith, subset-append xs ys zs)

module _ (known : List String) where
  abbrev IsKnown : List String → Type 0
  IsKnown gates = subset gates known ≡ true

  tagged_gates-IsKnown : (tag : String) → IsKnown (tagged_gates known tag)
  unfolding tagged_gates
  tagged_gates-IsKnown tag =
      if-both IsKnown (tag == "harness") (sorted_set-subset is_harness_gate known) (
        if-both IsKnown (starts_with tag "harness:") (if_known-subset known _)
          (if_known-subset known (gate_for tag)))

  untagged_gates-IsBound :
      contains known "G-regression" ≡ true → IsBound known (untagged_gates known)
  unfolding untagged_gates
  untagged_gates-IsBound h = elim (Bool-cases (is_empty (harness_gates known))) [
    | inl e ↦ rw (untagged_gates, e) (refl, rw h refl)
    | inr e ↦ rw (untagged_gates, e) (e, sorted_set-subset is_harness_gate known)
  ]

  with_budgets-IsBound :
      (gates : List String) → IsBound known gates → IsBound known (with_budgets known gates)
  with_budgets-IsBound [] h = h
  with_budgets-IsBound (id ∷ ids) (h, k) =
      if-both (IsBound known) (id == "G-deploy")
        (
          refl,
          subset-append (id ∷ ids) (budget_gates known) known k
              (sorted_set-subset (λ g. starts_with g "G-budget-") known),
        )
        (h, k)

  -- a result, if there is one, is bound
  abbrev IfBound : Option (String × List String) → Type 0
  IfBound none = Unit
  IfBound (some (statement, gates)) = IsBound known gates

  abbrev AreBound : List AcceptanceCriterion → Type 0
  AreBound cs = All (λ c. IsBound known c.gates) cs

  abbrev IfAreBound : ℕ → Option (List AcceptanceCriterion) → Type 0
  IfAreBound n none = Unit
  IfAreBound n (some cs) = AreBound cs × (length cs ≡ n)

  bind_item-IfBound :
      contains known "G-regression" ≡ true → (item : String) → IfBound (bind_item known item)
  unfolding bind_item
  bind_item-IfBound r item = elim (Option-cases (read_tag item)) [
    | inl e ↦ rw (bind_item, e) (untagged_gates-IsBound r)
    | inr ((tag, statement), e) ↦ elim (Bool-cases (is_empty (tagged_gates known tag))) [
      | inl n ↦ rw (bind_item, e, n) tt
      | inr n ↦ rw (bind_item, e, n) (n, tagged_gates-IsKnown tag)
    ]
  ]

  module _ (decimal : ℕ → String) (r : contains known "G-regression" ≡ true) where
    criteria_from-IfAreBound :
        (index : ℕ) (items : List String)
        → IfAreBound (length items) (criteria_from decimal known index items)
    unfolding criteria_from
    criteria_from-IfAreBound index [] = (tt, refl)
    criteria_from-IfAreBound index (item ∷ items) =
        let rest = criteria_from-IfAreBound (suc index) items in
        elim (Option-cases (bind_item known item)) [
          | inl e ↦ rw (criteria_from, e) tt
          | inr ((statement, gates), e) ↦
              let bound : IsBound known gates = rw e at (bind_item-IfBound r item) in
              elim (Option-cases (criteria_from decimal known (suc index) items)) [
                | inl e2 ↦ rw (criteria_from, e, e2) tt
                | inr (cs, e2) ↦
                    let (all_bound, count) = subst (IfAreBound (length items)) e2 rest in
                    rw (criteria_from, e, e2)
                      ((with_budgets-IsBound gates bound, all_bound), omega (arith, count))
              ]
        ]

-- When the document has the regression gate, as every compiled document does: the acceptance
-- criteria that are built are as many as there are bullets, at least one, and each is bound to at
-- least one gate and only to gates that the document produces.
pub build_acceptance-AreBound :
    (decimal : ℕ → String) (known lines : List String) (cs : List AcceptanceCriterion)
    → contains known "G-regression" ≡ true
    → build_acceptance decimal known lines ≡ some cs
    → All (λ c. IsBound known c.gates) cs
      × (length cs ≡ length (bullets lines))
      × (is_empty cs ≡ false)
unfolding build_acceptance
build_acceptance-AreBound decimal known lines cs r e =
    let items = bullets lines in
    kept (criteria_from decimal known 1 items) (criteria_from-IfAreBound known decimal r 1 items) e
  where
    kept :
        (o : Option (List AcceptanceCriterion))
        → IfAreBound known (length (bullets lines)) o
        → unless_empty o ≡ some cs
        → All (λ c. IsBound known c.gates) cs
          × (length cs ≡ length (bullets lines))
          × (is_empty cs ≡ false)
    kept none h k = absurd (ground (arith, k))
    kept (some []) h k = absurd (ground (arith, k))
    kept (some (d ∷ ds)) (h, n) k =
        let same : d ∷ ds ≡ cs = cc in
        subst
          (λ l.
            All (λ c. IsBound known c.gates) l
            × (length l ≡ length (bullets lines))
            × (is_empty l ≡ false))
          same (h, n, refl)
