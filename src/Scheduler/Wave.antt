-- ===== src/Scheduler/Wave.antt =====
-- `refresh` and `dispatch` of minifleet/scheduler.py: which tasks may start, and their start.
use minifleet.Prelude.{
  ℕ, zero, suc, ◌+◌, ◌*◌, ◌^◌, String, Bool, true, false, not, ◌&&◌, Option, none, some, List, [],
  ◌∷◌, map, if◌then◌else◌, filter, is_empty, eqb, take, length, subset, lookup,
}
use minifleet.Model.{pos, Float, finite, le_float, eq_float, TaskState, Task, IntentSpec, Event}
use minifleet.Scheduler.State.{Site, Fleet, is, tell, with_tasks, with_world}

-- the ids of the merged tasks
abbrev pub merged_ids : List Task → List String
merged_ids ts = map (λ t. t.id) (filter (is TaskState.merged) ts)

abbrev pub may_start : List String → Task → Bool
may_start merged t = is TaskState.pending t && subset t.depends_on merged

abbrev pub promote : List String → Task → Task
promote merged t = if may_start merged t then record t { state = TaskState.ready } else t

unfoldable pub refresh_tasks : List Task → List Task
refresh_tasks ts = map (promote (merged_ids ts)) ts

-- the ids of `ready()`
abbrev pub ready : List Task → List String
ready ts = map (λ t. t.id) (filter (is TaskState.ready) ts)

-- the dispatches so far
unfoldable pub used : List Event → ℕ
used [] = 0
used (Event.tasks_dispatched dispatcher ids ∷ es) = length ids + used es
used (e ∷ es) = used es

-- a whole number as a double, in quanta
abbrev pub of_nat : ℕ → Float
of_nat n = finite (pos (n * 2 ^ 1074))

-- `if budget: ... if used >= budget`
unfoldable pub exhausted : IntentSpec → List Event → Option Float
unfolding used
exhausted spec events = elim (lookup "max_dispatches" spec.limits) [
  | none ↦ none
  | some limit ↦
      if not (eq_float limit (of_nat 0)) && le_float limit (of_nat (used events))
      then some limit
      else none
]

-- `prepared[:limit]` if the limit is given and not 0
abbrev pub cut {ℓ} : {A : Type ℓ} → Option ℕ → List A → List A
cut none xs = xs
cut (some zero) xs = xs
cut (some (suc n)) xs = take (suc n) xs

-- what is left of a limit: `some 0` is no room
abbrev pub room : Option ℕ → Option ℕ
room (some zero) = none
room limit = limit

abbrev pub is_room : Option ℕ → Bool
is_room (some zero) = false
is_room limit = true

abbrev pub less_room : Option ℕ → Option ℕ
less_room (some (suc n)) = some n
less_room limit = limit

abbrev pub start : ℕ → Task → Task
start now t = record t {
  state = TaskState.dispatched;
  started_at = some (elim t.started_at [ none ↦ now | some n ↦ if eqb n 0 then now else n ]);
}

-- the ready tasks are dispatched, as far as there is room
unfoldable pub start_ready : ℕ → Option ℕ → List Task → List Task
start_ready now room [] = []
start_ready now room (t ∷ ts) =
    let starts = is TaskState.ready t && is_room room in
    let rest = start_ready now (if starts then less_room room else room) ts in
    (if starts then start now t else t) ∷ rest

-- a ready task gets a branch, a worktree and its packet
abbrev pub equip : (s : Site) → String → Task → s.machine.World → Task × s.machine.World
equip s base t w =
    let branch = s.attempt_branch w t.component_id t.branch base in
    let path = s.sandbox t.component_id in
    let given = record t { branch = branch; worktree = path } in
    if is TaskState.ready t
    then (given, s.write_packet (s.add_worktree w path branch base) given)
    else (t, w)

-- the loop of `packets`
unfoldable pub prepare :
    (s : Site) → String → List Task → s.machine.World → List Task × s.machine.World
prepare s base [] w = ([], w)
prepare s base (t ∷ ts) w =
    let (given, after) = equip s base t w in
    let (rest, last) = prepare s base ts after in (given ∷ rest, last)

module _ {s : Site} where
  unfoldable pub refresh : Fleet s → Fleet s
  unfolding refresh_tasks
  refresh f =
      let ts = f.design.tasks in
      let promoted = map (λ t. t.id) (filter (may_start (merged_ids ts)) ts) in
      if is_empty promoted
      then f
      else tell (Event.tasks_ready promoted) (with_tasks (refresh_tasks ts) f)

  -- `packets()`
  unfoldable pub packets : Fleet s → Fleet s
  unfolding refresh prepare
  packets f =
      let f' = refresh f in
      let (ts, w) = prepare s (s.head f'.lab.world) f'.design.tasks f'.lab.world in
      with_world w (with_tasks ts f')

  unfoldable pub dispatch : String → IntentSpec → Option ℕ → Fleet s → Fleet s
  unfolding packets exhausted start_ready
  dispatch name spec limit f = elim (exhausted spec f.run.events) [
    | some budget ↦ tell (Event.budget_exhausted (used f.run.events) budget) f
    | none ↦
        let f' = packets f in
        let ids = cut limit (ready f'.design.tasks) in
        if is_empty ids
        then f'
        else let started = start_ready (s.clock f'.lab.world) (room limit) f'.design.tasks in
          with_world (s.work f'.lab.world ids)
            (tell (Event.tasks_dispatched name ids) (with_tasks started f'))
  ]
