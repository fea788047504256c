-- ===== src/RepairPacket/Bounded.antt =====
-- What a repair packet says of its evidence, and when it escalates.
use minifleet.Prelude.{
  ℕ, ◌≡◌, refl, ap, ◌↔◌, Bool, true, false, ◌≤◌, List, [], ◌∷◌, ◌==◌, inl, inr, leb, Has,
  Has-sort_by, Has-sort_by_of, Has-append_left, Bool-cases, leb→le, le→leb, All, All-of_Has, ◌⊎◌,
}
use minifleet.Model.{Task}
use minifleet.RepairPacket.{
  Row, Failure, or_empty, failure, failures, failing_gates, by_gate_id, Instruction, fixes,
  instructions, build_repair_packet,
}

-- A row of the evidence that did not pass, and the failure that it gives.
abbrev pub Reports : List Row → Failure → Type 0
Reports rows f = (r : Row) × Has r rows × ((or_empty r.status == "pass") ≡ false) × (failure r ≡ f)

failures-Reports : (rows : List Row) (f : Failure) → Has f (failures rows) → Reports rows f
unfolding failures
failures-Reports [] f m = absurd m
failures-Reports (r ∷ rs) f m = elim (Bool-cases (or_empty r.status == "pass")) [
  | inl e ↦ later (failures-Reports rs f (rw (e, failures) at m))
  | inr e ↦ go e (failures-Reports rs f) (rw (e, failures) at m)
]
  where
    later : Reports rs f → Reports (r ∷ rs) f
    later (q, n, k, l) = (q, inr n, k, l)

    go :
        (or_empty r.status == "pass") ≡ false
        → (Has f (failures rs) → Reports rs f)
        → Has f (failure r ∷ failures rs)
        → Reports (r ∷ rs) f
    go e rec (inl same) = (r, inl refl, e, same)
    go e rec (inr n) = later (rec n)

Reports-failures :
    (rows : List Row) (r : Row)
    → Has r rows
    → (or_empty r.status == "pass") ≡ false
    → Has (failure r) (failures rows)
unfolding failures
Reports-failures [] r m e = absurd m
Reports-failures (q ∷ rs) r (inl same) e = rw (same, e) (inl refl)
Reports-failures (q ∷ rs) r (inr m) e = elim (Bool-cases (or_empty q.status == "pass")) [
  | inl k ↦ rw (failures, k) (Reports-failures rs r m e)
  | inr k ↦ rw (failures, k) (inr (Reports-failures rs r m e))
]

-- The failing gates are the rows that did not pass, no other and none left out.
pub failing_gates_iff :
    (rows : List Row) (f : Failure) → Has f (failing_gates rows) ↔ Reports rows f
unfolding failing_gates
failing_gates_iff rows f = (
  λ m. failures-Reports rows f (Has-sort_by by_gate_id f (failures rows) m),
  λ (r, m, e, same).
      Has-sort_by_of by_gate_id f (failures rows) (rw (← same) (Reports-failures rows r m e)),
)

fixes-Has :
    (f : Failure) (fs : List Failure)
    → Has f fs
    → Has (Instruction.fix f) (fixes fs) × Has (Instruction.rerun f.gate_id) (fixes fs)
fixes-Has f [] m = absurd m
fixes-Has f (g ∷ fs) (inl e) =
    (inl (ap Instruction.fix e), inr (inl (ap (λ (x : Failure). Instruction.rerun x.gate_id) e)))
fixes-Has f (g ∷ fs) (inr m) = let (a, b) = fixes-Has f fs m in (inr (inr a), inr (inr b))

instructions-Has :
    (i : Instruction) (fs : List Failure) (attempt max_attempts : ℕ) (escalate : Bool)
    → Has i (fixes fs)
    → Has i (instructions fs attempt max_attempts escalate)
unfolding instructions
instructions-Has i [] attempt max_attempts escalate m = absurd m
instructions-Has i (f ∷ fs) attempt max_attempts escalate m = Has-append_left i (fixes (f ∷ fs)) _ m

-- The packet of an attempt escalates exactly from the last attempt on, whatever the evidence; and
-- for every row of the evidence that did not pass it tells the worker to fix that failure and to run
-- its gate again.
pub build_repair_packet_brief :
    (task : Task) (rows : List Row) (attempt max_attempts : ℕ)
    → (((build_repair_packet task rows attempt max_attempts).escalate ≡ true)
        ↔ (max_attempts ≤ attempt))
      × All
          (λ r.
            ((or_empty r.status == "pass") ≡ true)
            ⊎ (Has
                  (Instruction.fix (failure r))
                  (build_repair_packet task rows attempt max_attempts).steps
                × Has
                    (Instruction.rerun (failure r).gate_id)
                    (build_repair_packet task rows attempt max_attempts).steps))
          rows
unfolding build_repair_packet
build_repair_packet_brief task rows attempt max_attempts =
    let failing = failing_gates rows in
    let escalate = leb max_attempts attempt in
    (
      (leb→le max_attempts attempt, le→leb max_attempts attempt),
      All-of_Has _ rows (λ r m. elim (Bool-cases (or_empty r.status == "pass")) [
        | inl e ↦ inl e
        | inr e ↦
            let (a, b) =
              fixes-Has (failure r) failing
                ((failing_gates_iff rows (failure r)).1 (r, m, e, refl)) in
            inr (
              instructions-Has (Instruction.fix (failure r)) failing attempt max_attempts escalate
                  a,
              instructions-Has (Instruction.rerun (failure r).gate_id) failing attempt max_attempts
                  escalate b,
            )
      ]),
    )
