-- ===== src/Traceability.antt =====
-- `traceability`, `pending_tasks` and the counts of `summary` of minifleet/ledger.py.
use minifleet.Prelude.{
  String, ◌≡◌, refl, sym, ◌∙◌, ◌↔◌, Bool, true, false, Option, none, some, List, [], ◌∷◌, map, ◌==◌,
  if◌then◌else◌, eq_iff, filter, all, any, is_empty, contains, lookup, All, Bool-cases,
  Option-cases, inl, inr, ◌||◌, arith,
}
use minifleet.Model.{
  Message, text, TaskState, in_state, AcceptanceCriterion, IntentSpec, Evidence, Task, Design,
}
use minifleet.Gates.Verdicts.{by_gate, last_for, IsGreen, lookup-latest}

pub record TraceGate : Type 0 where
  pub id : String
  pub status : String
  pub detail : Message

pub record TraceRow : Type 0 where
  pub criterion : String
  pub statement : String
  pub kind : String
  pub tasks : List String
  pub gates : List TraceGate
  pub status : String

abbrev pub seen_as : String → Option Evidence → TraceGate
seen_as g (some e) = record { id = g; status = e.status; detail = e.detail }
seen_as g none = record { id = g; status = "unproven"; detail = text "no evidence recorded" }

abbrev is_pass : TraceGate → Bool
is_pass g = g.status == "pass"

-- the four results for a criterion
unfoldable pub overall : List TraceGate → String
overall gates =
    if is_empty gates
    then "unproven"
    else if all is_pass gates
    then "verified"
    else if any (λ g. g.status == "fail") gates
    then "failed"
    else "incomplete"

-- the ids of the tasks that claim a criterion
abbrev pub owners : String → List Task → List String
owners c ts = map (λ t. t.id) (filter (λ t. contains t.acceptance_ids c) ts)

unfoldable pub trace_row : List Task → List Evidence → AcceptanceCriterion → TraceRow
unfolding overall
trace_row tasks evidence c =
    let gates = map (λ g. seen_as g (lookup g (by_gate [] evidence))) c.gates in
    record {
      criterion = c.id;
      statement = c.statement;
      kind = c.kind;
      tasks = owners c.id tasks;
      gates = gates;
      status = overall gates;
    }

unfoldable pub traceability : IntentSpec → Design → List Evidence → List TraceRow
unfolding trace_row
traceability spec design evidence = map (trace_row design.tasks evidence) spec.acceptance

-- `pending_tasks`
unfoldable pub pending_tasks : List Task → List String
pending_tasks ts =
    map (λ t. t.id)
      (filter (λ t. in_state t.state TaskState.pending || in_state t.state TaskState.ready) ts)

seen_as-pass :
    (evidence : List Evidence) (g : String)
    → (is_pass (seen_as g (lookup g (by_gate [] evidence))) ≡ true) ↔ IsGreen evidence g
seen_as-pass evidence g = elim (Option-cases (last_for g evidence)) [
  | inl e ↦
      let same = lookup-latest evidence [] g ∙ e in
      rw same (λ h. absurd (ground arith), λ (x, k, p). absurd (ground arith))
  | inr (x, e) ↦
      let same = lookup-latest evidence [] g ∙ e in
      rw same (
        λ h. (x, e, ground (arith, eq_iff x.status "pass")),
        λ (y, k, p).
            let both : some x ≡ some y = sym e ∙ k in let same : x ≡ y = cc in rw (same, p) refl,
      )
]

gates-pass :
    (evidence : List Evidence) (gs : List String)
    → (all is_pass (map (λ g. seen_as g (lookup g (by_gate [] evidence))) gs) ≡ true)
      ↔ All (IsGreen evidence) gs
gates-pass evidence [] = (λ h. tt, λ h. refl)
gates-pass evidence (g ∷ gs) =
    let (go, back) = seen_as-pass evidence g in
    let (goes, backs) = gates-pass evidence gs in
    (λ h. (go (ground arith), goes (ground arith)), λ (k, h). rw (back k, backs h))

is_empty-map : {A B : Type 0} (f : A → B) (xs : List A) → is_empty (map f xs) ≡ is_empty xs
is_empty-map f [] = refl
is_empty-map f (x ∷ xs) = refl

overall-verified :
    (gs : List TraceGate)
    → (overall gs ≡ "verified") ↔ ((is_empty gs ≡ false) × (all is_pass gs ≡ true))
unfolding overall
overall-verified gs = elim (Bool-cases (is_empty gs)) [
  | inl e ↦
      rw (overall, e)
        (
          λ h. absurd (ground (arith, eq_iff "unproven" "verified")),
          λ (h, k). absurd (ground arith),
        )
  | inr e ↦ elim (Bool-cases (all is_pass gs)) [
    | inl k ↦ rw (overall, e, k) (λ h. (refl, refl), λ h. refl)
    | inr k ↦ elim (Bool-cases (any (λ g. g.status == "fail") gs)) [
      | inl n ↦
          rw (overall, e, k, n)
            (
              λ h. absurd (ground (arith, eq_iff "failed" "verified")),
              λ (h, h'). absurd (ground arith),
            )
      | inr n ↦
          rw (overall, e, k, n)
            (
              λ h. absurd (ground (arith, eq_iff "incomplete" "verified")),
              λ (h, h'). absurd (ground arith),
            )
    ]
  ]
]

-- A criterion is reported as verified exactly when it names a gate and the latest evidence of each
-- gate that it names is a pass.
pub trace_row-verified_iff :
    (tasks : List Task) (evidence : List Evidence) (c : AcceptanceCriterion)
    → ((trace_row tasks evidence c).status ≡ "verified")
      ↔ ((is_empty c.gates ≡ false) × All (IsGreen evidence) c.gates)
unfolding trace_row
trace_row-verified_iff tasks evidence c =
    let see = λ (g : String). seen_as g (lookup g (by_gate [] evidence)) in
    let (go, back) = overall-verified (map see c.gates) in
    let (green, ungreen) = gates-pass evidence c.gates in
    let same = is_empty-map see c.gates in
    (λ h. let (a, b) = go h in (sym same ∙ a, green b), λ (a, b). back (same ∙ a, ungreen b))
