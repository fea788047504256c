-- ===== src/Architect/Graph.antt =====
-- `find_cycles` of minifleet/architect.py: a depth-first search over the dependency graph.
use minifleet.Prelude.{
  ℕ, zero, suc, String, Option, none, some, List, [], ◌∷◌, ◌++◌, ◌==◌, if◌then◌else◌, length, Dict,
  lookup, insert, keys,
}
use minifleet.Model.{Task}

-- `{t.id: list(t.depends_on) for t in tasks}`
unfoldable pub add_tasks : Dict (List String) → List Task → Dict (List String)
add_tasks g [] = g
add_tasks g (t ∷ ts) = add_tasks (insert t.id t.depends_on g) ts

unfoldable pub graph : List Task → Dict (List String)
unfolding add_tasks
graph ts = add_tasks [] ts

-- `graph.get(node, [])`
abbrev pub successors : Dict (List String) → String → List String
successors g n = elim (lookup n g) [ none ↦ [] | some ns ↦ ns ]

-- 0, 1 and 2
pub data Colour : Type 0 where
  white grey black : Colour

-- The variables of the closure. `colour` is total: a name that is not in the dict is white.
pub record Dfs : Type 0 where
  pub colour : String → Colour
  pub stack : List String
  pub cycles : List (List String)

abbrev pub paint : String → Colour → (String → Colour) → String → Colour
paint n c colour m = if n == m then c else colour m

-- `stack[stack.index(n):]`; no caller passes a name that is not on the stack
abbrev pub from : String → List String → List String
from n [] = []
from n (x ∷ xs) = if x == n then x ∷ xs else from n xs

abbrev pub drop_last : List String → List String
drop_last [] = []
drop_last (x ∷ []) = []
drop_last (x ∷ y ∷ xs) = x ∷ drop_last (y ∷ xs)

abbrev pub enter : String → Dfs → Dfs
enter n s = record s { colour = paint n Colour.grey s.colour; stack = s.stack ++ n ∷ [] }

abbrev pub leave : String → Dfs → Dfs
leave n s = record s { colour = paint n Colour.black s.colour; stack = drop_last s.stack }

abbrev pub close : String → Dfs → Dfs
close n s = record s { cycles = s.cycles ++ from n s.stack ∷ [] }

-- `none` is the end of the fuel.
abbrev pub Visit : Type 0
Visit = String → Dfs → Option Dfs

-- one turn of the loop over the successors
unfoldable pub follow : Visit → String → Dfs → Option Dfs
follow recur n s = elim (s.colour n) [
  | Colour.grey ↦ some (close n s)
  | Colour.white ↦ recur n s
  | Colour.black ↦ some s
]

unfoldable pub scan : Visit → List String → Dfs → Option Dfs
scan recur [] s = some s
scan recur (n ∷ ns) s = elim (follow recur n s) [ none ↦ none | some s' ↦ scan recur ns s' ]

unfoldable pub visit : ℕ → Dict (List String) → Visit
unfolding scan follow
visit zero g n s = none
visit (suc fuel) g n s = elim (scan (visit fuel g) (successors g n) (enter n s)) [
  | none ↦ none
  | some s' ↦ some (leave n s')
]

-- the loop over the nodes of the graph
unfoldable pub roots : Visit → List String → Dfs → Option Dfs
roots recur [] s = some s
roots recur (n ∷ ns) s = elim (s.colour n) [
  | Colour.white ↦ elim (recur n s) [ none ↦ none | some s' ↦ roots recur ns s' ]
  | _ ↦ roots recur ns s
]

abbrev pub start : Dfs
start = record { colour = λ n. Colour.white; stack = []; cycles = [] }

-- every name that the search can reach
unfoldable pub names : Dict (List String) → List String
names [] = []
names ((k, ns) ∷ g) = k ∷ (ns ++ names g)

unfoldable pub search_graph : Dict (List String) → Option Dfs
unfolding visit roots names
search_graph g = roots (visit (suc (length (names g))) g) (keys g) start

unfoldable pub find_cycles : List Task → List (List String)
unfolding search_graph graph
find_cycles ts = elim (search_graph (graph ts)) [ none ↦ [] | some s ↦ s.cycles ]
