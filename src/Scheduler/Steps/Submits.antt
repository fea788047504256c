-- ===== src/Scheduler/Steps/Submits.antt =====
-- `ingest` of minifleet/scheduler.py keeps the tasks proven.
use minifleet.Prelude.{
  ℕ, String, ◌≡◌, refl, inl, inr, true, not, Option, none, some, List, ◌==◌, is_empty→nil, all,
  find, is_empty, All, All-mono, All-of_filter-nil, All-sort_by, Bool-cases, Option-cases, if-both,
  arith, str_le,
}
use minifleet.Model.{Gate, Evidence, Task}
use mathlib.Core.Path.{subst}
use minifleet.Scheduler.State.{Site, Fleet, task_gates, run_all}
use minifleet.Scheduler.Scope.{within}
use minifleet.Scheduler.Submit.{
  handed_in, judged, accept, respond, submit, changed_by, outside_of, ingest, is_pass,
}
use minifleet.Scheduler.Steps.Tasks.{
  has_passed, IsProven, IsSound, All-update_first, run_all-has_passed,
}

module _ (s : Site) where
  judged-IsProven :
      (gates : List Gate) (now : ℕ) (evidence : List Evidence) (t : Task)
      → (all is_pass evidence ≡ true → All (λ g. has_passed evidence g ≡ true) (task_gates gates t))
      → All (λ p. within s.fnmatch p t.owns ≡ true) t.submitted_files
      → IsProven s gates (judged now evidence t)
  judged-IsProven gates now evidence t h k = elim (Bool-cases (all is_pass evidence)) [
    | inl e ↦ inr (h e, k)
    | inr e ↦ inl (rw e refl)
  ]

  accept-IsSound :
      (t : Task) (worker notes : String) (changed : List String) (f : Fleet s)
      → All (λ p. within s.fnmatch p t.owns ≡ true) changed
      → IsSound s f
      → IsSound s (accept t worker notes changed f)
  unfolding accept
  accept-IsSound t worker notes changed f k h =
      let (sent, f1) = submit t worker notes changed f in
      let gates = task_gates f1.design.gates sent in
      let (evidence, lab) = run_all s sent.worktree gates sent.id f1.lab in
      let proven =
        judged-IsProven f.design.gates (s.clock lab.world) evidence sent
          (run_all-has_passed s sent.worktree gates sent.id f1.lab)
          (All-sort_by str_le _ changed k) in
      let sound =
        All-update_first (IsProven s f.design.gates) (λ u. u.id == t.id)
          (λ u. judged (s.clock lab.world) evidence sent) f.design.tasks (λ u p. proven) h in
      if-both (IsSound s) (all is_pass evidence) sound sound

  respond-IsSound :
      (t : Task) (worker notes : String) (changed : List String) (f : Fleet s)
      → IsSound s f
      → IsSound s (respond t worker notes changed f)
  respond-IsSound t worker notes changed f h =
      elim (Bool-cases (is_empty (outside_of s t changed))) [
        | inl e ↦
            let silent =
              All-of_filter-nil (λ p. not (within s.fnmatch p t.owns)) changed
                (is_empty→nil (outside_of s t changed) e) in
            rw e (
              accept-IsSound t worker notes changed f
                (All-mono changed (λ p n. ground arith) silent) h)
        | inr e ↦ rw e (
            All-update_first (IsProven s f.design.gates) (λ u. u.id == t.id) _ f.design.tasks
              (λ u p. inl refl) h)
      ]

  pub ingest-IsSound :
      (id worker notes : String) (files : Option (List String)) (f f' : Fleet s)
      → ingest id worker notes files f ≡ some f'
      → IsSound s f
      → IsSound s f'
  unfolding ingest
  ingest-IsSound id worker notes files f f' e h =
      elim (Option-cases (find (λ t. t.id == id) f.design.tasks)) [
        | inl n ↦ let stuck : none ≡ some f' = rw (ingest, n) at e in absurd (ground (arith, stuck))
        | inr (u, n) ↦
            let t = handed_in s u in
            let same : some (respond t worker notes (changed_by t files f) f) ≡ some f' =
              rw (ingest, n) at e in
            let done : respond t worker notes (changed_by t files f) f ≡ f' = cc in
            subst (IsSound s) done (respond-IsSound t worker notes (changed_by t files f) f h)
      ]
