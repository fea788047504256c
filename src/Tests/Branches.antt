-- ===== src/Tests/Branches.antt =====
-- A repository of three branches, in which the branch of a component was merged.
use Prim.Native.String.{◌++◌ as append, ◌∷◌ as and_char}
use text.Mathlib.TextLemmas.{append_cancel_left}
use minifleet.Prelude.{
  ℕ, zero, suc, String, Bool, true, false, List, [], ◌∷◌, ◌≡◌, refl, ap, arith, contains, length,
  codes, sym, str_le, split_slash, sort_by, trim, ◌∙◌,
}
use minifleet.Model.{ℤ, pos, eq_ℤ}
use minifleet.Worktree.{Git, attempt_branch}
use minifleet.Worktree.Files.{changed_paths, is_cache_path}
use minifleet.Worktree.Attempts.{HasAttempts, IsChoice, attempt_branch-IsChoice}

abbrev branches : List String
branches = "main" ∷ "task/core" ∷ "task/core-a11" ∷ []

abbrev told : Bool → ℤ × String × String
told true = (pos 0, "", "")
told false = (pos 1, "", "")

abbrev answer : List String → ℤ × String × String
answer (a ∷ b ∷ c ∷ d ∷ []) = told (contains branches d)
answer (a ∷ b ∷ []) = (pos 0, b, "")
answer args = (pos 0, "", "")

-- `n` in strokes
strokes : ℕ → String
strokes zero = ""
strokes (suc n) = and_char "1" (strokes n)

length-strokes : (n : ℕ) → length (codes (strokes n)) ≡ n
unfolding strokes
length-strokes zero = refl
length-strokes (suc n) = ap suc (length-strokes n)

strokes_inj : (m n : ℕ) → strokes m ≡ strokes n → m ≡ n
strokes_inj m n e = sym (length-strokes m) ∙ ap (λ s. length (codes s)) e ∙ length-strokes n

abbrev sample_git : Git
sample_git = record {
  World = Unit {0};
  command = λ args path w. (answer args, w);
  has_git = λ path w. false;
  exists = λ path w. false;
  clear = λ path w. w;
  make_parent = λ path w. w;
  decimal = strokes;
}

found_at : (b : Bool) → eq_ℤ (told b).0 (pos 0) ≡ b
found_at true = refl
found_at false = refl

sample-HasAttempts : HasAttempts sample_git "." tt "core" branches
sample-HasAttempts = record {
  reads_revision = λ rev. refl;
  reads_base = λ a b. refl;
  reads_branch = λ b. refl;
  finds =
      λ n. found_at (contains branches (append (append (append "task/" "core") "-a") (strokes n)));
  injective = λ m n e.
      strokes_inj m n
        (append_cancel_left (append (append "task/" "core") "-a") (strokes m) (strokes n) e);
}

attempt_branch-IsChoice_example :
    IsChoice sample_git "." "core" "task/core" "main" tt
      (attempt_branch sample_git "." 4 "core" "task/core" "main" tt)
attempt_branch-IsChoice_example =
    attempt_branch-IsChoice sample_git "." tt "core" branches sample-HasAttempts "task/core" "main"
      4 (ground arith)

abbrev tracked_output : String
tracked_output = "a.py\nb.pyc\n"

abbrev status_output : String
status_output = " M a.py\n?? c.py\n"

two-changed : changed_paths tracked_output status_output ≡ "a.py" ∷ "c.py" ∷ []
unfolding changed_paths is_cache_path split_slash sort_by str_le trim
two-changed = refl
