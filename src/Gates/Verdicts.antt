-- ===== src/Gates/Verdicts.antt =====
-- `verdict` of minifleet/gates.py.
use minifleet.Prelude.{
  map-nil, String, ◌≡◌, refl, sym, ◌∙◌, ◌↔◌, Bool, false, not, ◌&&◌, Option, none, some, List, [],
  ◌∷◌, map, ◌==◌, inl, inr, eq_iff, arith, if◌then◌else◌, contains, minus, filter, Dict, insert,
  keys, lookup, lookup-insert, lookup-some, lookup-none, lookup-Has, lookup_of_Has, IsUnique,
  IsUnique-insert, All, All-at, All-of_Has, Has, Has-sort_by, Has-sort_by_of, All-of_filter-nil,
  filter-nil_of_All, All-mono, sort_by, str_le, Bool-cases, contains→Has, Has→contains,
}
use minifleet.Model.{Evidence, Verdict}

-- `{e.gate_id: e for e in evidence}`
unfoldable pub by_gate : Dict Evidence → List Evidence → Dict Evidence
by_gate d [] = d
by_gate d (e ∷ es) = by_gate (insert e.gate_id e d) es

abbrev pub is_bad : List String → String × Evidence → Bool
is_bad required (id, e) = contains required id && not (e.status == "pass")

abbrev pub judge : List String → List (String × String) → Verdict
judge [] [] = Verdict.green
judge [] (b ∷ bad) = Verdict.red (b ∷ bad)
judge (m ∷ missing) bad = Verdict.no_evidence (sort_by str_le (m ∷ missing))

unfoldable pub verdict : List Evidence → List String → Verdict
unfolding by_gate
verdict evidence required =
    let latest = by_gate [] evidence in
    let rows = sort_by (λ a b. str_le a.0 b.0) latest in
    judge (minus required (keys latest))
      (map (λ r. (r.1.gate_id, r.1.status)) (filter (is_bad required) rows))

-- The last evidence for a gate.
abbrev pub last_for : String → List Evidence → Option Evidence
last_for g [] = none
last_for g (e ∷ es) = elim (last_for g es) [
  | none ↦ if e.gate_id == g then some e else none
  | some x ↦ some x
]

abbrev or_else : Option Evidence → Option Evidence → Option Evidence
or_else none o = o
or_else (some x) o = some x

lookup-by_gate :
    (d : Dict Evidence) (es : List Evidence) (g : String)
    → lookup g (by_gate d es) ≡ or_else (last_for g es) (lookup g d)
unfolding by_gate
lookup-by_gate d [] g = refl
lookup-by_gate d (e ∷ es) g =
    ground (arith, lookup-by_gate (insert e.gate_id e d) es g, lookup-insert e.gate_id g e d)

by_gate-IsUnique : (d : Dict Evidence) (es : List Evidence) → IsUnique d → IsUnique (by_gate d es)
unfolding by_gate
by_gate-IsUnique d [] u = u
by_gate-IsUnique d (e ∷ es) u =
    by_gate-IsUnique (insert e.gate_id e d) es (IsUnique-insert e.gate_id e d u)

judge-green :
    (missing : List String) (bad : List (String × String))
    → judge missing bad ≡ Verdict.green
    → (missing ≡ []) × (bad ≡ [])
judge-green [] [] h = (refl, refl)
judge-green [] (b ∷ bad) h = cc
judge-green (m ∷ missing) bad h = cc

-- The latest evidence for the gate passed.
abbrev pub IsGreen : List Evidence → String → Type 0
IsGreen evidence g = (e : Evidence) × (last_for g evidence ≡ some e) × (e.status ≡ "pass")

or_else-none : (o : Option Evidence) → or_else o none ≡ o
or_else-none none = refl
or_else-none (some x) = refl

module _ (evidence : List Evidence) (required : List String) where
  abbrev latest : Dict Evidence
  latest = by_gate [] evidence

  abbrev rows : List (String × Evidence)
  rows = sort_by (λ a b. str_le a.0 b.0) latest

  pub lookup-latest : (g : String) → lookup g latest ≡ last_for g evidence
  lookup-latest g = lookup-by_gate [] evidence g ∙ or_else-none (last_for g evidence)

  IsGreen-of_silent :
      minus required (keys latest) ≡ []
      → filter (is_bad required) rows ≡ []
      → (g : String) → Has g required
      → IsGreen evidence g
  IsGreen-of_silent covered good g m =
      let present =
        All-at (λ g. not (contains (keys latest) g) ≡ false) g required
          (All-of_filter-nil _ required covered) m in
      let (e, found) = lookup-some g latest (ground arith) in
      let fine =
        All-at (λ r. is_bad required r ≡ false) (g, e) rows
          (All-of_filter-nil (is_bad required) rows good)
          (Has-sort_by_of (λ a b. str_le a.0 b.0) (g, e) latest (lookup-Has g e latest found)) in
      (
        e,
        sym (lookup-latest g) ∙ found,
        ground (arith, Has→contains required g m, eq_iff e.status "pass"),
      )

  covered_of_IsGreen : All (IsGreen evidence) required → minus required (keys latest) ≡ []
  covered_of_IsGreen h =
      filter-nil_of_All (λ g. not (contains (keys latest) g)) required
        (All-mono required
          (λ g green. elim (Bool-cases (contains (keys latest) g)) [
            | inl k ↦ rw k
            | inr k ↦
                let gone = lookup-none g latest k in
                let there = lookup-latest g ∙ green.1 in absurd (ground arith)
          ])
          h)

  good_of_IsGreen : All (IsGreen evidence) required → filter (is_bad required) rows ≡ []
  good_of_IsGreen h = filter-nil_of_All (is_bad required) rows (
      All-of_Has (λ r. is_bad required r ≡ false) rows
        λ (g, e) m. elim (Bool-cases (contains required g)) [
          | inr k ↦ rw k
          | inl k ↦
              let green = All-at (IsGreen evidence) g required h (contains→Has required g k) in
              let found =
                lookup_of_Has g e latest (by_gate-IsUnique [] evidence tt)
                  (Has-sort_by (λ a b. str_le a.0 b.0) (g, e) latest m) in
              let there = lookup-latest g ∙ green.1 in
              let same : some e ≡ some green.0 = sym found ∙ there in
              let it : e ≡ green.0 = cc in rw (k, it, green.2)
        ])

-- The verdict is green exactly when the latest evidence of every required gate passed.
pub verdict-green_iff :
    (evidence : List Evidence) (required : List String)
    → (verdict evidence required ≡ Verdict.green) ↔ All (IsGreen evidence) required
unfolding verdict
verdict-green_iff evidence required =
    let missing = minus required (keys (latest evidence required)) in
    let bad = filter (is_bad required) (rows evidence required) in
    (
      λ h.
          let (covered, silent) =
            judge-green missing (map (λ (r : String × Evidence). (r.1.gate_id, r.1.status)) bad)
              h in
          All-of_Has (IsGreen evidence) required
            (IsGreen-of_silent evidence required covered (map-nil _ bad silent)),
      λ h. rw (covered_of_IsGreen evidence required h, good_of_IsGreen evidence required h),
    )
