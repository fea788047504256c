-- ===== src/Scheduler/Verified.antt =====
-- What `verify` of minifleet/scheduler.py promises: the order of the gates, and the status of the run.
use mathlib.Core.List.{Perm}
use minifleet.Prelude.{
  ℕ, String, ◌≡◌, refl, sym, ◌∙◌, ◌⊎◌, inl, inr, ◌↔◌, Bool, true, false, not, ◌||◌, Option, some,
  List, [], ◌∷◌, ◌==◌, if◌then◌else◌, find, is_empty, map, filter, All, All-mono, Bool-cases,
  Option-cases, if-both, arith, IsSortedBy, sort_by-IsSortedBy, sort_by-perm,
}
use minifleet.Model.{RunStatus, Verdict, passes, Gate, Evidence, Task}
use minifleet.Gates.Verdicts.{verdict, IsGreen, verdict-green_iff}
use minifleet.Scheduler.State.{Site, Fleet, system_gates}
use minifleet.Scheduler.Wave.{refresh, may_start, merged_ids}
use minifleet.Scheduler.Repair.{
  Outcome, quiet, blame, blame_all, in_component, trace, counts, trace_all, report_unattributed,
  attribute_failures,
}
use minifleet.Scheduler.Integrate.{is_budget, budgets_last, required_ids, measure, verify}

-- Behind a budget gate stand budget gates only.
abbrev pub IsMeasuredFirst : List Gate → Type 0
IsMeasuredFirst [] = Unit
IsMeasuredFirst (g ∷ gs) =
    ((is_budget g ≡ false) ⊎ All (λ h. is_budget h ≡ true) gs) × IsMeasuredFirst gs

abbrev before : Gate → Gate → Bool
before a b = not (is_budget a) || is_budget b

IsMeasuredFirst-of_IsSortedBy : (gs : List Gate) → IsSortedBy before gs → IsMeasuredFirst gs
IsMeasuredFirst-of_IsSortedBy [] h = tt
IsMeasuredFirst-of_IsSortedBy (g ∷ gs) (h, k) = (
  elim (Bool-cases (is_budget g)) [
    | inr e ↦ inl e
    | inl e ↦ inr (All-mono gs (λ x q. ground arith) h)
  ],
  IsMeasuredFirst-of_IsSortedBy gs k,
)

-- The system gates run in an order of the same gates in which no other gate stands behind a budget
-- gate.
pub budgets_last-IsMeasuredFirst :
    (gates : List Gate) → IsMeasuredFirst (budgets_last gates) × Perm (budgets_last gates) gates
unfolding budgets_last
budgets_last-IsMeasuredFirst gates = (
  IsMeasuredFirst-of_IsSortedBy (budgets_last gates) (
      sort_by-IsSortedBy before
        (λ a b. elim (Bool-cases (is_budget a)) [
          | inl e ↦ inr (ground arith)
          | inr e ↦ inl (ground arith)
        ])
        (λ a b c h k. ground arith) gates),
  sort_by-perm before gates,
)

-- The run of the fleet has the status.
abbrev pub IsOfStatus : (s : Site) → RunStatus → Fleet s → Type 0
IsOfStatus s status f = f.run.status ≡ status

module _ (s : Site) (x : RunStatus) where
  pub refresh-IsOfStatus : (f : Fleet s) → IsOfStatus s x f → IsOfStatus s x (refresh f)
  unfolding refresh
  refresh-IsOfStatus f h =
      let ts = f.design.tasks in
      if-both (IsOfStatus s x)
        (is_empty (map (λ (t : Task). t.id) (filter (may_start (merged_ids ts)) ts))) h h

  blame-IsOfStatus :
      (n : ℕ) (item : Evidence) (c : String) (t : Task) (o : Outcome s)
      → IsOfStatus s x o.fleet
      → IsOfStatus s x (blame n item c t o).fleet
  unfolding blame
  blame-IsOfStatus n item c t o h = h

  blame_all-IsOfStatus :
      (n : ℕ) (item : Evidence) (cs : List String) (o : Outcome s)
      → IsOfStatus s x o.fleet
      → IsOfStatus s x (blame_all n item cs o).fleet
  unfolding blame_all
  blame_all-IsOfStatus n item [] o h = h
  blame_all-IsOfStatus n item (c ∷ cs) o h =
      elim (Option-cases (find (in_component c) o.fleet.design.tasks)) [
        | inl e ↦ rw (blame_all, e) (blame_all-IsOfStatus n item cs _ h)
        | inr (t, e) ↦
            rw (blame_all, e) (blame_all-IsOfStatus n item cs _ (blame-IsOfStatus n item c t o h))
      ]

  trace-IsOfStatus :
      (n : ℕ) (item : Evidence) (o : Outcome s)
      → IsOfStatus s x o.fleet
      → IsOfStatus s x (trace n item o).fleet
  unfolding trace
  trace-IsOfStatus n item o h =
      elim (Option-cases (find (λ g. g.id == item.gate_id) o.fleet.design.gates)) [
        | inl e ↦ rw (trace, e) h
        | inr (g, e) ↦
            rw (trace, e)
              (if-both (λ (r : Outcome s). IsOfStatus s x r.fleet) (is_empty g.attributed_to) h
                (blame_all-IsOfStatus n item g.attributed_to o h))
      ]

  trace_all-IsOfStatus :
      (n : ℕ) (required : Option (List String)) (items : List Evidence) (o : Outcome s)
      → IsOfStatus s x o.fleet
      → IsOfStatus s x (trace_all n required items o).fleet
  unfolding trace_all
  trace_all-IsOfStatus n required [] o h = h
  trace_all-IsOfStatus n required (item ∷ items) o h = trace_all-IsOfStatus n required items _ (
      if-both (λ (r : Outcome s). IsOfStatus s x r.fleet) (counts required item)
        (trace-IsOfStatus n item o h) h)

  pub attribute_failures-IsOfStatus :
      (n : ℕ) (required : Option (List String)) (items : List Evidence) (f : Fleet s)
      → IsOfStatus s x f
      → IsOfStatus s x (attribute_failures n required items f).fleet
  unfolding attribute_failures
  attribute_failures-IsOfStatus n required items f h =
      let o = trace_all n required items (quiet f) in
      let k = trace_all-IsOfStatus n required items (quiet f) h in
      refresh-IsOfStatus (report_unattributed o)
        (if-both (IsOfStatus s x) (is_empty o.unattributed) k k)

passes→green : (v : Verdict) → passes v ≡ true → v ≡ Verdict.green
passes→green v h = ground arith

-- the status that a verdict gives
abbrev status_of : Verdict → RunStatus
status_of v = if passes v then RunStatus.passed else RunStatus.failed

measure-status :
    (s : Site) (f : Fleet s) → IsOfStatus s (status_of (measure f).1.run.verdict) (measure f).1
unfolding measure
measure-status s f = refl

verify-status :
    (s : Site) (n : ℕ) (f : Fleet s) → (verify n f).run.status ≡ status_of (measure f).1.run.verdict
unfolding verify
verify-status s n f =
    let (evidence, judged) = measure f in
    let required = required_ids (budgets_last (system_gates judged.design.gates)) in
    let x = status_of judged.run.verdict in
    let k = measure-status s f in
    if-both (IsOfStatus s x) (passes judged.run.verdict) k
      (attribute_failures-IsOfStatus s x n (some required) evidence judged k)

status_of-passed : (v : Verdict) → (status_of v ≡ RunStatus.passed) ↔ (v ≡ Verdict.green)
status_of-passed Verdict.green = (λ h. refl, λ h. refl)
status_of-passed Verdict.unset = (λ h. cc, λ h. cc)
status_of-passed (Verdict.no_evidence l) = (λ h. cc, λ h. cc)
status_of-passed (Verdict.red l) = (λ h. cc, λ h. cc)
status_of-passed (Verdict.ownership_conflicts l) = (λ h. cc, λ h. cc)
status_of-passed (Verdict.integration_error e) = (λ h. cc, λ h. cc)

status_of-cases :
    (v : Verdict) → (status_of v ≡ RunStatus.passed) ⊎ (status_of v ≡ RunStatus.failed)
status_of-cases v = elim (Bool-cases (passes v)) [
  | inl e ↦ rw e (inl refl)
  | inr e ↦ rw e (inr refl)
]

measure-verdict :
    (s : Site) (f : Fleet s)
    → (measure f).1.run.verdict
      ≡ verdict (measure f).0 (required_ids (budgets_last (system_gates f.design.gates)))
unfolding measure
measure-verdict s f = refl

-- Verification passes the run exactly when every required system gate has evidence, measured in
-- this verification, and the last of it is a pass; in every other case it fails the run.
pub verify-passed_iff :
    (s : Site) (n : ℕ) (f : Fleet s)
    → (((verify n f).run.status ≡ RunStatus.passed)
        ↔ All (IsGreen (measure f).0) (required_ids (budgets_last (system_gates f.design.gates))))
      × (((verify n f).run.status ≡ RunStatus.passed)
          ⊎ ((verify n f).run.status ≡ RunStatus.failed))
verify-passed_iff s n f =
    let required = required_ids (budgets_last (system_gates f.design.gates)) in
    let v = (measure f).1.run.verdict in
    let st = verify-status s n f in
    let same = measure-verdict s f in
    let (go, back) = status_of-passed v in
    let (green, ungreen) = verdict-green_iff (measure f).0 required in
    (
      (λ h. green (sym same ∙ go (sym st ∙ h)), λ h. st ∙ back (same ∙ ungreen h)),
      rw st (status_of-cases v),
    )
