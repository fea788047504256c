-- ===== src/Compile/Budgets/Numbers.antt =====
-- The budgets that `parse_budgets` of minifleet/compile.py keeps.
use minifleet.Prelude.{
  String, ◌≡◌, refl, inl, inr, true, Option, none, some, List, [], ◌∷◌, ◌==◌, if◌then◌else◌, trim,
  All, Dict, lookup, insert, IsUnique, IsUnique-insert, contains, Bool-cases, Option-cases, IfSome,
  if-both,
}
use minifleet.Intent.{limit_names}
use minifleet.Model.{pos, Float, eq_float}
use minifleet.Model.Codec.{whole}
use minifleet.Compile.Sections.{Texts, lines_at}
use minifleet.Compile.{bullets}
use minifleet.Compile.Budgets.{
  is_decimal, read_op, read_metric, word_span, is_name, budgets_from, parse_budgets, limits_from,
  parse_limits,
}

-- A decimal text is no NaN: its number equals itself.
abbrev pub IsExact : Texts → Type 0
IsExact texts =
    (s : String) (x : Float)
    → is_decimal texts s ≡ true
    → texts.to_float s ≡ some x
    → eq_float x x ≡ true

-- Each metric once, and every threshold equal to itself.
abbrev pub AreExact : Dict (String × Float) → Type 0
AreExact d = IsUnique d × All (λ (k, (op, x)). eq_float x x ≡ true) d

insert-exact :
    (k op : String) (x : Float) (d : Dict (String × Float))
    → eq_float x x ≡ true
    → All (λ (j, (p, y)). eq_float y y ≡ true) d
    → All (λ (j, (p, y)). eq_float y y ≡ true) (insert k (op, x) d)
insert-exact k op x [] h a = (h, tt)
insert-exact k op x ((j, (p, y)) ∷ d) h (b, a) = elim (Bool-cases (j == k)) [
  | inl e ↦ rw e (h, a)
  | inr e ↦ rw e (b, insert-exact k op x d h a)
]

abbrev IfDecimal : Texts → Option (String × String × String) → Type 0
IfDecimal texts none = Unit
IfDecimal texts (some (metric, op, digits)) = is_decimal texts digits ≡ true

module _ (texts : Texts) where
  read_metric-IfDecimal : (item : String) → IfDecimal texts (read_metric texts item)
  unfolding read_metric
  read_metric-IfDecimal item =
      let (word, rest) = word_span item in
      elim (Option-cases (if is_name word then read_op (trim rest) else none)) [
        | inl e ↦ rw (read_metric, e) tt
        | inr ((op, behind), e) ↦ elim (Bool-cases (is_decimal texts (trim behind))) [
          | inl n ↦ rw (read_metric, e, n) n
          | inr n ↦ rw (read_metric, e, n) tt
        ]
      ]

  budgets_from-IfExact :
      IsExact texts
      → (items : List String) (d : Dict (String × Float)) → AreExact d
      → IfSome AreExact (budgets_from texts items d)
  unfolding budgets_from
  budgets_from-IfExact exact [] d h = h
  budgets_from-IfExact exact (item ∷ items) d (u, a) =
      elim (Option-cases (read_metric texts item)) [
        | inl e ↦ rw (budgets_from, e) (budgets_from-IfExact exact items d (u, a))
        | inr ((metric, op, digits), e) ↦
            let decimal : is_decimal texts digits ≡ true = rw e at (read_metric-IfDecimal item) in
            elim (Option-cases (texts.to_float digits)) [
              | inl n ↦ rw (budgets_from, e, n) tt
              | inr (x, n) ↦
                  let next = budgets_from-IfExact exact items (insert metric (op, x) d) (
                    IsUnique-insert metric (op, x) d u,
                    insert-exact metric op x d (exact digits x decimal n) a,
                  ) in
                  rw (budgets_from, e, n) next
            ]
      ]

  pub parse_budgets-IfExact :
      IsExact texts
      → (sections : Dict (List String)) → IfSome AreExact (parse_budgets texts sections)
  unfolding parse_budgets
  parse_budgets-IfExact exact sections =
      budgets_from-IfExact exact (bullets (lines_at "budgets" sections)) [] (tt, tt)

-- Limits that an intent knows.
abbrev pub AreLimits : Dict Float → Type 0
AreLimits d = All (λ (name, x). contains limit_names name ≡ true) d

insert-AreLimits :
    (k : String) (x : Float) (d : Dict Float)
    → contains limit_names k ≡ true
    → AreLimits d
    → AreLimits (insert k x d)
insert-AreLimits k x [] h a = (h, tt)
insert-AreLimits k x ((j, y) ∷ d) h (b, a) = elim (Bool-cases (j == k)) [
  | inl e ↦ rw e (b, a)
  | inr e ↦ rw e (b, insert-AreLimits k x d h a)
]

module _ (texts : Texts) where
  limits_from-IfLimits :
      (names : List String) (meta : Dict String) (d : Dict Float)
      → All (λ name. contains limit_names name ≡ true) names
      → AreLimits d
      → IfSome AreLimits (limits_from texts names meta d)
  limits_from-IfLimits [] meta d h a = a
  limits_from-IfLimits (name ∷ names) meta d (h, hs) a = elim (Option-cases (lookup name meta)) [
    | inl e ↦ rw (IfSome, limits_from, e) (limits_from-IfLimits names meta d hs a)
    | inr (digits, e) ↦ elim (Option-cases (texts.to_float digits)) [
      | inl n ↦ rw (IfSome, limits_from, e, n) tt
      | inr (x, n) ↦
          let next =
            limits_from-IfLimits names meta (insert name x d) hs (insert-AreLimits name x d h a) in
          rw (IfSome, limits_from, e, n) next
    ]
  ]

  pub parse_limits-IfLimits : (meta : Dict String) → IfSome AreLimits (parse_limits texts meta)
  unfolding parse_limits
  parse_limits-IfLimits meta =
      let limits = limits_from-IfLimits limit_names meta [] (refl, (refl, (refl, (refl, tt)))) tt in
      elim (Option-cases (limits_from texts limit_names meta [])) [
        | inl e ↦ rw (parse_limits, e) tt
        | inr (d, e) ↦
            let kept : AreLimits d = rw e at limits in
            let more = insert-AreLimits "max_attempts" (whole (pos 3)) d refl kept in
            rw (parse_limits, e) (if-both AreLimits _ more kept)
      ]
