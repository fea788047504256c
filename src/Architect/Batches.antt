-- ===== src/Architect/Batches.antt =====
-- `topological_batches` of minifleet/architect.py: waves of tasks that can run together.
pub mod Order
pub mod Progress
pub mod Waves
use minifleet.Prelude.{
  ℕ, zero, suc, String, Bool, not, Option, none, some, List, [], ◌∷◌, ◌++◌, map, length, filter,
  contains, subset, Dict, insert, keys, sort_by, str_le,
}
use minifleet.Model.{Task}

abbrev pub ids : List Task → List String
ids = map (λ t. t.id)

-- `{t.id: t for t in tasks}`
unfoldable pub add_by_id : Dict Task → List Task → Dict Task
add_by_id d [] = d
add_by_id d (t ∷ ts) = add_by_id (insert t.id t d) ts

-- A plan, or the error with the ids that are left.
pub data Plan : Type 0 where
  waves : List (List Task) → Plan
  design_error : List String → Plan

abbrev pub is_due : List String → Task → Bool
is_due done t = subset t.depends_on done

-- `[t for t in remaining.values() if set(t.depends_on) <= done]`
unfoldable pub due : List String → Dict Task → List Task
due done remaining = filter (is_due done) (map (λ e. e.1) remaining)

-- `for task in wave: remaining.pop(task.id)`
unfoldable pub without : List String → Dict Task → Dict Task
without wave remaining = filter (λ e. not (contains wave e.0)) remaining

abbrev pub by_id : List Task → List Task
by_id = sort_by (λ s t. str_le s.id t.id)

-- One turn of the loop, given what the next turns give: a wave that is empty is an error.
abbrev pub turn : List Task → List String → Option Plan → Option Plan
turn [] left rest = some (design_error left)
turn (t ∷ ts) left (some (waves ws)) = some (waves (by_id (t ∷ ts) ∷ ws))
turn (t ∷ ts) left rest = rest

-- The loop. `none` is the end of the fuel: each turn takes at least one task off.
unfoldable pub batches : ℕ → List String → Dict Task → Option Plan
batches fuel done [] = some (waves [])
batches zero done (e ∷ rest) = none
batches (suc fuel) done (e ∷ rest) =
    let wave = due done (e ∷ rest) in
    let more = batches fuel (done ++ ids wave) (without (ids wave) (e ∷ rest)) in
    turn wave (sort_by str_le (keys (e ∷ rest))) more

unfoldable pub topological_batches : List Task → Option Plan
unfolding add_by_id batches
topological_batches tasks =
    let remaining = add_by_id [] tasks in batches (length remaining) [] remaining
