-- ===== src/Compile/Owned.antt =====
-- The write scopes that minifleet/compile.py derives from the deliverables.
use Prim.Native.String.{◌++◌ as append}
use minifleet.Prelude.{
  ℕ, suc, ◌+◌, String, ◌≡◌, refl, subst, inl, inr, Bool, true, not, none, some, List, [], ◌∷◌, ◌++◌,
  ◌==◌, map, filter, find, any, Bool-cases, Option-cases, arith, if◌then◌else◌,
}
use minifleet.Model.{Component}
use minifleet.Scheduler.State.{update_first}
use minifleet.Compile.Components.{
  Pathlib, Deliverable, is_attached, with_path, attach_all, Draft, is_test, add_component,
  default_text, add_modules, owns_stem, add_test, add_tests, components_from,
}

-- how often a path stands in a list
abbrev pub count : String → List String → ℕ
count a [] = 0
count a (x ∷ xs) = let rest = count a xs in if x == a then suc rest else rest

-- all paths of the components
abbrev pub owned : List Component → List String
owned [] = []
owned (c ∷ cs) = c.owns ++ owned cs

abbrev pub paths_of : List Deliverable → List String
paths_of ds = map (λ d. d.path) ds

module _ (a : String) where
  count-append : (xs ys : List String) → count a (xs ++ ys) ≡ count a xs + count a ys
  count-append [] ys = omega arith
  count-append (x ∷ xs) ys = ground (arith, count-append xs ys)

  abbrev owned_count : List Component → ℕ
  owned_count cs = count a (owned cs)

  owned_count-append :
      (cs es : List Component) → owned_count (cs ++ es) ≡ owned_count cs + owned_count es
  owned_count-append [] es = omega arith
  owned_count-append (c ∷ cs) es = omega (
    arith,
    owned_count-append cs es,
    count-append c.owns (owned cs),
    count-append c.owns (owned (cs ++ es)),
  )

  count-update_first :
      (p : Component → Bool) (path : String) (cs : List Component)
      → any p cs ≡ true
      → owned_count (update_first p (with_path path) cs) ≡ owned_count cs + count a (path ∷ [])
  count-update_first p path [] h = absurd (ground arith)
  count-update_first p path (c ∷ cs) h = elim (Bool-cases (p c)) [
    | inl e ↦ rw e (
        omega (
          arith,
          count-append (c.owns ++ path ∷ []) (owned cs),
          count-append c.owns (path ∷ []),
          count-append c.owns (owned cs),
        ))
    | inr e ↦ rw e (
        omega (
          arith,
          count-update_first p path cs (rw e at h),
          count-append c.owns (owned (update_first p (with_path path) cs)),
          count-append c.owns (owned cs),
        ))
  ]

  count-split :
      (p : Deliverable → Bool) (ds : List Deliverable)
      → count a (paths_of ds)
        ≡ count a (paths_of (filter p ds)) + count a (paths_of (filter (λ d. not (p d)) ds))
  count-split p [] = omega arith
  count-split p (d ∷ ds) = ground (arith, count-split p ds)

  module _ (paths : Pathlib) where
    add_component-count :
        (path responsibility : String) (depends : List String) (draft : Draft)
        → owned_count (add_component paths path responsibility depends draft).0
          ≡ owned_count draft.0 + count a (path ∷ [])
    add_component-count path responsibility depends (cs, used) = owned_count-append cs _

    add_modules-count :
        (ds : List Deliverable) (draft : Draft)
        → owned_count (add_modules paths ds draft).0 ≡ owned_count draft.0 + count a (paths_of ds)
    unfolding add_modules
    add_modules-count [] draft = omega arith
    add_modules-count (d ∷ ds) draft =
        let text = default_text d.description (append "deliver " d.path) in
        let next = add_component paths d.path text d.depends draft in
        let rest = add_modules-count ds next in
        let one = add_component-count d.path text d.depends draft in ground (arith, rest, one)

    add_test-count :
        (d : Deliverable) (draft : Draft)
        → owned_count (add_test paths d draft).0 ≡ owned_count draft.0 + count a (d.path ∷ [])
    add_test-count d (cs, used) = elim (Bool-cases (any (owns_stem paths d.path) cs)) [
      | inl e ↦ rw e (count-update_first (owns_stem paths d.path) d.path cs e)
      | inr e ↦ rw e (add_component-count d.path _ [] (cs, used))
    ]

    add_tests-count :
        (ds : List Deliverable) (draft : Draft)
        → owned_count (add_tests paths ds draft).0 ≡ owned_count draft.0 + count a (paths_of ds)
    unfolding add_tests
    add_tests-count [] draft = omega arith
    add_tests-count (d ∷ ds) draft =
        let rest = add_tests-count ds (add_test paths d draft) in
        let one = add_test-count d draft in ground (arith, rest, one)

  any-found :
      (p : Component → Bool) (cs : List Component) (c : Component)
      → find p cs ≡ some c
      → any p cs ≡ true
  any-found p [] c e = absurd (ground (arith, e))
  any-found p (d ∷ cs) c e = elim (Bool-cases (p d)) [
    | inl n ↦ rw n refl
    | inr n ↦ let rest = any-found p cs c (rw n at e) in rw n rest
  ]

  attach_all-count :
      (ds : List Deliverable) (cs es : List Component)
      → attach_all ds cs ≡ some es
      → owned_count es ≡ owned_count cs + count a (paths_of ds)
  unfolding attach_all
  attach_all-count [] cs es e =
      let same : cs ≡ es = cc in subst (λ l. owned_count l ≡ owned_count cs + 0) same (omega arith)
  attach_all-count (d ∷ ds) cs es e =
      let p = λ (c : Component). c.id == d.owner in
      elim (Option-cases (find p cs)) [
        | inl n ↦
            let stuck : none ≡ some es = rw (attach_all, n) at e in absurd (ground (arith, stuck))
        | inr (c, n) ↦
            let after = update_first p (with_path d.path) cs in
            let rest = attach_all-count ds after es (rw (attach_all, n) at e) in
            let one = count-update_first p d.path cs (any-found p cs c n) in
            ground (arith, rest, one)
      ]

-- If the deliverables give components, then each path is owned by them exactly as often as it is
-- delivered: no deliverable is lost, none is owned twice, and nothing else is owned.
pub components_from-count :
    (paths : Pathlib) (ds : List Deliverable) (cs : List Component)
    → components_from paths ds ≡ some cs
    → (a : String) → count a (owned cs) ≡ count a (paths_of ds)
unfolding components_from
components_from-count paths ds cs e a =
    let parsed = filter (λ (d : Deliverable). not (is_attached d)) ds in
    let modules = filter (λ d. not (is_test paths d)) parsed in
    let tests = filter (is_test paths) parsed in
    let start = add_modules paths modules ([], []) in
    let built = add_tests paths tests start in
    let attached = attach_all-count a (filter is_attached ds) built.0 cs e in
    let tested = add_tests-count a paths tests start in
    let module_count = add_modules-count a paths modules ([], []) in
    let split = count-split a is_attached ds in
    let split_tests = count-split a (is_test paths) parsed in
    omega (arith, attached, tested, module_count, split, split_tests)
