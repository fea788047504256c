-- ===== src/Scheduler/Ownership.antt =====
-- `ownership_conflicts` of minifleet/worktree.py: the paths that two task branches touch.
pub mod Single
use minifleet.Prelude.{
  Option, String, ◌&&◌, none, some, List, [], ◌∷◌, ◌++◌, map, ◌==◌, if◌then◌else◌, Dict, insert,
  lookup, dedup, sort_by, str_le,
}

abbrev pub Pair : Type 0
Pair = String × String

-- `tuple(sorted((a, b)))`
abbrev pub in_order : String → String → Pair
in_order a b = if str_le a b then (a, b) else (b, a)

-- `conflicts.setdefault(key, []).append(path)`
unfoldable pub add_path : Pair → String → List (Pair × List String) → List (Pair × List String)
add_path k path [] = (k, path ∷ []) ∷ []
add_path k path ((j, l) ∷ rest) =
    if j.0 == k.0 && j.1 == k.1 then (j, l ++ path ∷ []) ∷ rest else (j, l) ∷ add_path k path rest

pub record Claims : Type 0 where
  pub seen : Dict String
  pub conflicts : List (Pair × List String)

-- one path of a branch, given the branch that it was seen in
abbrev pub claim_of : Option String → String → String → Claims → Claims
claim_of none branch path c = record c { seen = insert path branch c.seen }
claim_of (some owner) branch path c =
    if owner == branch
    then c
    else record c { conflicts = add_path (in_order owner branch) path c.conflicts }

abbrev pub claim : String → String → Claims → Claims
claim branch path c = claim_of (lookup path c.seen) branch path c

unfoldable pub claim_all : String → List String → Claims → Claims
unfolding add_path
claim_all branch [] c = c
claim_all branch (p ∷ ps) c = claim_all branch ps (claim branch p c)

unfoldable pub claim_branches : Dict (List String) → Claims → Claims
unfolding claim_all
claim_branches [] c = c
claim_branches ((branch, files) ∷ rest) c = claim_branches rest (claim_all branch files c)

unfoldable pub ownership_conflicts : Dict (List String) → List (String × String × List String)
unfolding claim_branches
ownership_conflicts branches =
    map (λ c. (c.0.0, c.0.1, sort_by str_le (dedup c.1)))
      (claim_branches branches (record { seen = []; conflicts = [] })).conflicts
