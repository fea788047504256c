-- ===== src/Architect/Review/Waiting.antt =====
-- `repair` of minifleet/architect.py keeps what does not hang on dependencies; so the tasks of a
-- design wait for their start.
use minifleet.Prelude.{
  String, ◌≡◌, refl, false, List, [], ◌∷◌, map, ◌==◌, All, Option-cases, inl, inr, sort_by, str_le,
  is_empty, if-both,
}
use minifleet.Model.{TaskState, in_state, Component, Task, Design}
use minifleet.Architect.Repairs.{
  drop_edges, edges_into, find_task, break_cycle, break_cycles, known_only, scoped,
}
use minifleet.Architect.Review.{task_for}

-- The task is neither verified nor merged.
abbrev pub Waits : Task → Type 0
Waits t =
    (in_state t.state TaskState.verified ≡ false) × (in_state t.state TaskState.merged ≡ false)

drop_edges-Waits :
    (id : String) (dropped : List String) (ts : List Task)
    → All Waits ts
    → All Waits (drop_edges id dropped ts)
drop_edges-Waits id dropped [] h = tt
drop_edges-Waits id dropped (t ∷ ts) h =
    if-both (All Waits) (t.id == id) h (h.0, drop_edges-Waits id dropped ts h.1)

break_cycle-Waits :
    (plan : Design) (cycle : List String)
    → All Waits plan.tasks
    → All Waits (break_cycle plan cycle).tasks
unfolding break_cycle
break_cycle-Waits plan cycle h = go (sort_by str_le cycle) refl
  where
    go : (l : List String) → sort_by str_le cycle ≡ l → All Waits (break_cycle plan cycle).tasks
    go [] e = rw (e, break_cycle) h
    go (v ∷ vs) e = elim (Option-cases (find_task v plan.tasks)) [
      | inl missing ↦ rw (e, break_cycle, missing) h
      | inr (t, found) ↦
          rw (e, break_cycle, found) (drop_edges-Waits v (edges_into cycle t) plan.tasks h)
    ]

pub break_cycles-Waits :
    (plan : Design) (cycles : List (List String))
    → All Waits plan.tasks
    → All Waits (break_cycles plan cycles).tasks
unfolding break_cycles
break_cycles-Waits plan [] h = h
break_cycles-Waits plan (c ∷ cs) h =
    break_cycles-Waits (break_cycle plan c) cs (break_cycle-Waits plan c h)

pub known_only-Waits :
    (known : List String) (ts : List Task) → All Waits ts → All Waits (map (known_only known) ts)
known_only-Waits known [] h = tt
known_only-Waits known (t ∷ ts) h = (h.0, known_only-Waits known ts h.1)

pub drafted-Waits : (cs : List Component) → All Waits (map scoped (map task_for cs))
unfolding task_for
drafted-Waits [] = tt
drafted-Waits (c ∷ cs) =
    (if-both Waits (is_empty c.owns) (refl, refl) (refl, refl), drafted-Waits cs)
