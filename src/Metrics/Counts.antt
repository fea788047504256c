-- ===== src/Metrics/Counts.antt =====
-- The counts of a run fit together.
use minifleet.Prelude.{
  ℕ, ◌+◌, ◌≤◌, String, Bool, Option, none, some, List, [], ◌∷◌, ◌≡◌, arith, inl, inr, length,
  filter, length-filter-le, ltb, Bool-cases, All, ◌==◌,
}
use minifleet.Model.{TaskState, in_state, Task, Evidence}
use minifleet.Metrics.{duration, attempts_of, retries_of, slower, slowest_from, summarize}

abbrev pub attempted : Task → Bool
attempted t = ltb 0 t.attempts

attempts_retries : (ts : List Task) → attempts_of ts ≡ retries_of ts + length (filter attempted ts)
attempts_retries [] = omega arith
attempts_retries (t ∷ ts) = ground (arith, attempts_retries ts)

-- No task lasts longer than the one that the loop keeps.
abbrev pub IsSlowest : Option (String × ℕ) → Task → Type 0
IsSlowest none t = ⊥
IsSlowest (some (id, n)) t = duration t ≤ n

slower-keeps :
    (best : Option (String × ℕ)) (t u : Task) → IsSlowest best u → IsSlowest (slower best t) u
slower-keeps none t u h = absurd h
slower-keeps (some (id, n)) t u h = elim (Bool-cases (ltb n (duration t))) [
  | inl e ↦ rw e (ground arith)
  | inr e ↦ rw e h
]

slower-IsSlowest : (best : Option (String × ℕ)) (t : Task) → IsSlowest (slower best t) t
slower-IsSlowest none t = omega arith
slower-IsSlowest (some (id, n)) t = elim (Bool-cases (ltb n (duration t))) [
  | inl e ↦ rw e (omega arith)
  | inr e ↦ rw e (ground arith)
]

slowest_from-keeps :
    (ts : List Task) (best : Option (String × ℕ)) (u : Task)
    → IsSlowest best u
    → IsSlowest (slowest_from best ts) u
slowest_from-keeps [] best u h = h
slowest_from-keeps (t ∷ ts) best u h =
    slowest_from-keeps ts (slower best t) u (slower-keeps best t u h)

slowest_from-IsSlowest :
    (ts : List Task) (best : Option (String × ℕ)) → All (IsSlowest (slowest_from best ts)) ts
slowest_from-IsSlowest [] best = tt
slowest_from-IsSlowest (t ∷ ts) best = (
  slowest_from-keeps ts (slower best t) t (slower-IsSlowest best t),
  slowest_from-IsSlowest ts (slower best t),
)

apart :
    (ts : List Task)
    → length (filter (λ t. in_state t.state TaskState.merged) ts)
        + length (filter (λ t. in_state t.state TaskState.failed) ts)
      ≤ length ts
apart [] = omega arith
apart (t ∷ ts) = ground (arith, apart ts)

-- In the summary of a run the gates that passed and those that failed are all gates, the merged and
-- the failed tasks are at most all tasks, the attempts are the retries and one for each task that
-- was tried, and no task lasts longer than the slowest one.
pub summarize-counts :
    (fuel : ℕ) (tasks : List Task) (evidence : List Evidence)
    → let s = summarize fuel tasks evidence in
      (s.gates_passed + s.gates_failed ≡ s.gates_total)
      × (s.merged + s.failed ≤ s.tasks)
      × (s.attempts_total ≡ s.retries + length (filter attempted tasks))
      × All (IsSlowest s.slowest_task) tasks
unfolding summarize
summarize-counts fuel tasks evidence = (
  omega (arith, length-filter-le (λ e. e.status == "pass") evidence),
  apart tasks,
  attempts_retries tasks,
  slowest_from-IsSlowest tasks none,
)
