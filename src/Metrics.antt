-- ===== src/Metrics.antt =====
-- minifleet/fleetmetrics.py: what a run cost, counted from its tasks and its evidence. Times are
-- whole ticks, so nothing is rounded.
pub mod Total
pub mod Counts
use minifleet.Prelude.{
  ℕ, zero, suc, ◌+◌, ◌-◌, String, Bool, true, false, Option, none, some, List, [], ◌∷◌, length,
  filter, ltb, if◌then◌else◌, ◌==◌, contains, Dict, lookup, insert, keys,
}
use minifleet.Model.{TaskState, in_state, Task, Evidence}

-- `_duration`
abbrev pub lasted : Option ℕ → Option ℕ → ℕ
lasted (some started) (some finished) = finished - started
lasted _ _ = 0

abbrev pub duration : Task → ℕ
duration t = lasted t.started_at t.finished_at

abbrev pub larger : ℕ → ℕ → ℕ
larger a b = if ltb a b then b else a

abbrev pub index_tasks : List Task → Dict Task → Dict Task
index_tasks [] d = d
index_tasks (t ∷ ts) d = index_tasks ts (insert t.id t d)

abbrev pub Memo : Type 0
Memo = Dict ℕ

infixl 5 ◌>>=◌
abbrev pub ◌>>=◌ {ℓ κ} : {A : Type ℓ} {B : Type κ} → Option A → (A → Option B) → Option B
none >>= f = none
some a >>= f = f a

abbrev pub Visit : Type 0
Visit = Memo → Option (ℕ × Memo)

-- one dependency and the others; a dependency that is no task is left out
abbrev pub joined : Bool → Visit → Visit → Visit
joined false visit rest memo = rest memo
joined true visit rest memo = do (v, m) ← visit memo; (w, m2) ← rest m; some (larger v w, m2)

-- the largest of `longest(dep)` over the dependencies that are tasks
abbrev pub parents : (String → Visit) → List String → List String → Visit
parents visit known [] memo = some (0, memo)
parents visit known (dep ∷ deps) memo =
    let rest = parents visit known deps in joined (contains known dep) (visit dep) rest memo

abbrev pub added : String → ℕ → ℕ × Memo → ℕ × Memo
added id own (best, memo) = (own + best, insert id (own + best) memo)

abbrev pub unless_memo : Option ℕ → Memo → Option (ℕ × Memo) → Option (ℕ × Memo)
unless_memo (some v) memo other = some (v, memo)
unless_memo none memo other = other

-- a dependency cycle counts nothing
abbrev pub unless_seen : Bool → Memo → Option (ℕ × Memo) → Option (ℕ × Memo)
unless_seen true memo other = some (0, memo)
unless_seen false memo other = other

abbrev pub from_task : (List String → Visit) → String → Option Task → Visit
from_task over id none memo = some (0, memo)
from_task over id (some t) memo = do
  best ← over t.depends_on memo
  some (added id (duration t) best)

-- `longest` on fuel; `none` is no fuel left
unfoldable pub longest : ℕ → Dict Task → List String → String → Visit
longest zero by_id seen id memo = none
longest (suc fuel) by_id seen id memo =
    let over = parents (longest fuel by_id (id ∷ seen)) (keys by_id) in
    unless_memo (lookup id memo) memo
      (unless_seen (contains seen id) memo (from_task over id (lookup id by_id) memo))

abbrev pub over_all : (String → Visit) → List String → Visit
over_all visit ids memo = parents visit ids ids memo

-- `critical_path_seconds`
unfoldable pub critical_path : ℕ → List Task → Option (ℕ × Memo)
critical_path fuel tasks =
    let by_id = index_tasks tasks [] in over_all (longest fuel by_id []) (keys by_id) []

abbrev pub attempts_of : List Task → ℕ
attempts_of [] = 0
attempts_of (t ∷ ts) = t.attempts + attempts_of ts

-- `max(attempts - 1, 0)` of each task
abbrev pub retries_of : List Task → ℕ
retries_of [] = 0
retries_of (t ∷ ts) = (t.attempts - 1) + retries_of ts

abbrev pub slower : Option (String × ℕ) → Task → Option (String × ℕ)
slower none t = some (t.id, duration t)
slower (some (id, n)) t = if ltb n (duration t) then some (t.id, duration t) else some (id, n)

-- the loop for the slowest task
abbrev pub slowest_from : Option (String × ℕ) → List Task → Option (String × ℕ)
slowest_from best [] = best
slowest_from best (t ∷ ts) = slowest_from (slower best t) ts

pub record Summary : Type 0 where
  pub tasks : ℕ
  pub merged : ℕ
  pub failed : ℕ
  pub attempts_total : ℕ
  pub retries : ℕ
  pub gates_total : ℕ
  pub gates_passed : ℕ
  pub gates_failed : ℕ
  pub critical_path_seconds : Option ℕ
  pub slowest_task : Option (String × ℕ)

abbrev pub first_of : Option (ℕ × Memo) → Option ℕ
first_of none = none
first_of (some (n, memo)) = some n

-- `summarize`, without the text of the verdict
unfoldable pub summarize : ℕ → List Task → List Evidence → Summary
summarize fuel tasks evidence =
    let passed = length (filter (λ e. e.status == "pass") evidence) in
    record {
      tasks = length tasks;
      merged = length (filter (λ t. in_state t.state TaskState.merged) tasks);
      failed = length (filter (λ t. in_state t.state TaskState.failed) tasks);
      attempts_total = attempts_of tasks;
      retries = retries_of tasks;
      gates_total = length evidence;
      gates_passed = passed;
      gates_failed = length evidence - passed;
      critical_path_seconds = first_of (critical_path fuel tasks);
      slowest_task = slowest_from none tasks;
    }
