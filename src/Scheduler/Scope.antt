-- ===== src/Scheduler/Scope.antt =====
-- `_within` of minifleet/scheduler.py and `scopes_overlap` of minifleet/model.py, over any
-- `fnmatch` (the name first, then the pattern).
use Prim.Native.Char.{code}
use Prim.Native.String.{[] as no_chars, ◌∷◌ as and_char, ◌++◌ as append}
use text.Mathlib.Text.{starts_with}
use minifleet.Prelude.{String, Bool, false, ◌&&◌, ◌||◌, List, [], ◌∷◌, ◌==◌, if◌then◌else◌, eqb}

-- `s.rstrip("/")`
unfoldable pub rstrip_slash : String → String
rstrip_slash no_chars = no_chars
rstrip_slash (and_char c s) =
    let rest = rstrip_slash s in if eqb (code c) b'/' && rest == "" then rest else and_char c rest

-- `s.endswith("/")`
unfoldable pub ends_slash : String → Bool
ends_slash no_chars = false
ends_slash (and_char c s) = if s == "" then eqb (code c) b'/' else ends_slash s

module _ (fnmatch : String → String → Bool) where
  abbrev admits : String → String → Bool
  admits path pattern =
      fnmatch path pattern
      || (ends_slash pattern && starts_with path pattern
          || starts_with path (append (rstrip_slash pattern) "/"))

  unfoldable pub within : String → List String → Bool
  unfolding ends_slash rstrip_slash
  within path [] = false
  within path (p ∷ ps) = admits path p || within path ps

  unfoldable pub scopes_overlap : String → String → Bool
  unfolding rstrip_slash
  scopes_overlap left right =
      let a = rstrip_slash left in
      let b = rstrip_slash right in
      a == b
      || (starts_with a (append b "/")
          || (starts_with b (append a "/") || (fnmatch a right || fnmatch b left)))
