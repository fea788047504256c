-- ===== src/Scheduler/Steps/Tasks.antt =====
-- When a task of minifleet/scheduler.py counts as done, and how the updates of tasks carry a
-- property over.
use minifleet.Prelude.{
  String, ◌≡◌, refl, ◌⊎◌, inl, inr, Bool, true, false, ◌&&◌, ◌||◌, some, List, [], ◌∷◌, ◌==◌, any,
  all, All, All-mono, Bool-cases, arith, eq_iff,
}
use minifleet.Model.{TaskState, Gate, Evidence, Task}
use minifleet.Gates.Runner.{Lab, run}
use minifleet.Gates.Kept.{run-IsReport}
use minifleet.Scheduler.State.{Site, Fleet, is, task_gates, update_first, run_all}
use minifleet.Scheduler.Scope.{within}
use minifleet.Scheduler.Submit.{is_pass}
use minifleet.Scheduler.Integrate.{find_last, update_last}

-- The task is verified or merged.
abbrev pub is_done : Task → Bool
is_done t = is TaskState.verified t || is TaskState.merged t

-- The evidence has a pass for the gate.
abbrev pub has_passed : List Evidence → Gate → Bool
has_passed es g = any (λ e. e.gate_id == g.id && is_pass e) es

-- A task that is done has evidence that each of its own gates passed, and its files are in its scope.
abbrev pub IsProven : Site → List Gate → Task → Type 0
IsProven s gates t =
    (is_done t ≡ false)
    ⊎ (All (λ g. has_passed t.evidence g ≡ true) (task_gates gates t)
        × All (λ p. within s.fnmatch p t.owns ≡ true) t.submitted_files)

-- Every task of the fleet is proven.
abbrev pub IsSound : (s : Site) → Fleet s → Type 0
IsSound s f = All (IsProven s f.design.gates) f.design.tasks

module _ {A : Type 0} (P : A → Type 0) (p : A → Bool) (f : A → A) where
  pub All-update_first :
      (xs : List A) → ((x : A) → P x → P (f x)) → All P xs → All P (update_first p f xs)
  All-update_first [] k h = tt
  All-update_first (x ∷ xs) k h = elim (Bool-cases (p x)) [
    | inl e ↦ rw e (k x h.0, h.1)
    | inr e ↦ rw e (h.0, All-update_first xs k h.1)
  ]

  pub All-update_last :
      (xs : List A)
      → ((x : A) → find_last p xs ≡ some x → P x → P (f x))
      → All P xs
      → All P (update_last p f xs)
  All-update_last [] k h = tt
  All-update_last (x ∷ xs) k h = elim (Bool-cases (any p xs)) [
    | inl e ↦ rw e (h.0, All-update_last xs (λ y e' q. k y (rw e e') q) h.1)
    | inr e ↦ elim (Bool-cases (p x)) [
      | inl e2 ↦ rw (e, e2) (k x (rw (e, e2) refl) h.0, h.1)
      | inr e2 ↦ rw (e, e2) h
    ]
  ]

pub run_all-has_passed :
    (s : Site) (workspace : String) (gs : List Gate) (id : String) (lab : Lab s.machine)
    → all is_pass (run_all s workspace gs id lab).0 ≡ true
    → All (λ g. has_passed (run_all s workspace gs id lab).0 g ≡ true) gs
unfolding run_all
run_all-has_passed s workspace [] id lab h = tt
run_all-has_passed s workspace (g ∷ gs) id lab h =
    let (e, after) = run s.machine workspace s.evidence_dir g id lab in
    let es = (run_all s workspace gs id after).0 in
    let rep = run-IsReport s.machine workspace s.evidence_dir g id lab in
    (
      ground (arith, eq_iff e.gate_id g.id),
      All-mono gs (λ g' k. ground arith)
          (run_all-has_passed s workspace gs id after (ground arith)),
    )
