-- ===== src/Tests/Metering.antt =====
-- Two tasks that wait for each other, and one that waits for them.
use minifleet.Prelude.{ℕ, ◌+◌, List, [], ◌∷◌, ◌≡◌, arith, some}
use minifleet.Model.{Task, Evidence}
use minifleet.Metrics.{Memo, critical_path}
use minifleet.Metrics.Total.{critical_path_total}
use minifleet.Tests.Data.{task, evidence}

abbrev timed : ℕ → Task → Task
timed n t = record t { started_at = some 1; finished_at = some (1 + n); attempts = n }

abbrev tasks : List Task
tasks =
    timed 2 (task "a" [] ("b" ∷ []))
    ∷ timed 3 (task "b" [] ("a" ∷ []))
    ∷ timed 4 (task "c" [] ("b" ∷ []))
    ∷ []

critical_path_total_example : (x : ℕ × Memo) × (critical_path 4 tasks ≡ some x)
critical_path_total_example = critical_path_total tasks 4 (ground arith)

abbrev seen : List Evidence
seen = evidence "G-all" "fail" ∷ evidence "G-all" "pass" ∷ []
