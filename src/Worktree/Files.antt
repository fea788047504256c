-- ===== src/Worktree/Files.antt =====
-- `Repo.changed_files` of minifleet/worktree.py: what git prints, read into a sorted set of paths
-- without the caches.
use Prim.Native.Char.{code}
use Prim.Native.String.{[] as no_chars, ◌∷◌ as and_char}
use text.Mathlib.Text.{starts_with}
use minifleet.Prelude.{
  ℕ, zero, suc, String, Bool, true, false, not, ◌&&◌, ◌||◌, Option, none, some, List, [], ◌∷◌, ◌++◌,
  map, filter, if◌then◌else◌, eqb, ◌==◌, is_space, is_break, trim, contains, dedup, sort_by, str_le,
  split_slash, onto_part,
}
use minifleet.Worktree.{Git, Io, git, pure, ◌>>=◌}

-- `text.split()`
abbrev pub words_of : String → List String
words_of no_chars = "" ∷ []
words_of (and_char c s) =
    let rest = words_of s in if is_space (code c) then "" ∷ rest else onto_part c rest

abbrev pub words : String → List String
words s = filter (λ w. not (w == "")) (words_of s)

-- `text.splitlines()`; `after_cr` is set behind a carriage return
abbrev pub text_lines : Bool → String → List String
text_lines after_cr no_chars = []
text_lines after_cr (and_char c s) =
    let rest = text_lines (eqb (code c) 13) s in
    if after_cr && eqb (code c) 10
    then rest
    else if is_break (code c)
    then "" ∷ rest
    else onto_part c rest

-- `text[n:]`
abbrev pub drop_chars : ℕ → String → String
drop_chars zero s = s
drop_chars (suc n) no_chars = ""
drop_chars (suc n) (and_char c s) = drop_chars n s

-- what stands behind the last " -> ", found from the left; `skip` characters belong to one found
abbrev pub behind_arrow : ℕ → String → Option String
behind_arrow skip no_chars = none
behind_arrow (suc skip) (and_char c s) = behind_arrow skip s
behind_arrow zero (and_char c s) = elim (starts_with (and_char c s) " -> ") [
  | false ↦ behind_arrow zero s
  | true ↦ elim (behind_arrow 3 s) [ none ↦ some (drop_chars 3 s) | some t ↦ some t ]
]

-- `path.split(" -> ")[-1]`
abbrev pub last_part : String → String
last_part s = elim (behind_arrow 0 s) [ none ↦ s | some t ↦ t ]

abbrev pub untracked_path : String → String
untracked_path line = trim (last_part (drop_chars 3 line))

-- the loop over the lines of the status
abbrev pub untracked : List String → List String
untracked lines = map untracked_path (filter (λ l. starts_with l "??") lines)

-- `path.replace("\\", "/")`
abbrev pub slashed : String → String
slashed no_chars = ""
slashed (and_char c s) =
    let rest = slashed s in if eqb (code c) 92 then and_char "/" rest else and_char c rest

-- `s.endswith(t)`
abbrev pub ends_with : String → String → Bool
ends_with no_chars t = no_chars == t
ends_with (and_char c s) t = and_char c s == t || ends_with s t

unfoldable pub is_cache_path : String → Bool
is_cache_path path =
    let parts = split_slash (slashed path) in
    contains parts "__pycache__"
    || contains parts ".pytest_cache"
    || contains parts ".mypy_cache"
    || ends_with path ".pyc"
    || ends_with path ".pyo"

-- the paths of two outputs
unfoldable pub changed_paths : String → String → List String
changed_paths tracked status =
    let all_paths = words tracked ++ untracked (text_lines false status) in
    sort_by str_le (dedup (filter (λ p. not (is_cache_path p)) all_paths))

unfoldable pub changed_files : (g : Git) → String → String → Io g.World (List String)
changed_files g worktree base = do
  tracked ← git g ("diff" ∷ "--name-only" ∷ base ∷ []) worktree
  status ← git g ("status" ∷ "--porcelain" ∷ "-uall" ∷ []) worktree
  pure (changed_paths tracked.stdout status.stdout)

abbrev pub diffstat : (g : Git) → String → String → Io g.World String
diffstat g worktree base = do
  p ← git g ("diff" ∷ "--stat" ∷ base ∷ []) worktree
  pure (trim p.stdout)
