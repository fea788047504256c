-- ===== src/Worktree.antt =====
-- `Repo` of minifleet/worktree.py over the git command: the branches of the attempts, the
-- worktrees of the workers, their commits and the merges.
--
-- A step takes and gives the world; `raised` is a GitError, with what git printed of its message.
-- Git, the file system and the decimal
-- text of a number are arguments.
pub mod Files
pub mod Paths
pub mod Attempts
use Prim.Native.String.{◌++◌ as append}
use minifleet.Prelude.{
  ℕ, zero, suc, String, Bool, true, false, not, ◌&&◌, Option, none, some, List, [], ◌∷◌, ◌==◌,
  if◌then◌else◌, trim,
}
use minifleet.Model.{ℤ, pos, eq_ℤ}

pub record Git : Type 1 where
  pub World : Type 0
  -- the exit code, the output and the errors of a git command in a directory
  pub command : List String → String → World → (ℤ × String × String) × World
  pub has_git : String → World → Bool
  pub exists : String → World → Bool
  pub clear : String → World → World
  pub make_parent : String → World → World
  pub decimal : ℕ → String

pub data Step {ℓ} (A : Type ℓ) (W : Type 0) : Type ℓ where
  did : A → W → Step A W
  raised : String → W → Step A W

abbrev pub Io {ℓ} : Type 0 → Type ℓ → Type ℓ
Io W A = W → Step A W

abbrev pub bound {ℓ κ} :
    {A : Type ℓ} {B : Type κ} {W : Type 0} → Step A W → (A → W → Step B W) → Step B W
bound (did a w) f = f a w
bound (raised e w) f = raised e w

infixl 5 ◌>>=◌ ◌>>◌
abbrev pub ◌>>=◌ {ℓ κ} : {A : Type ℓ} {B : Type κ} {W : Type 0} → Io W A → (A → Io W B) → Io W B
(m >>= f) w = bound (m w) f

abbrev pub ◌>>◌ {ℓ κ} : {A : Type ℓ} {B : Type κ} {W : Type 0} → Io W A → Io W B → Io W B
(m >> k) w = bound (m w) (λ a. k)

abbrev pub pure {ℓ} : {A : Type ℓ} {W : Type 0} → A → Io W A
pure a w = did a w

abbrev pub raise {ℓ} : {A : Type ℓ} {W : Type 0} → String → Io W A
raise e w = raised e w

pub record Process : Type 0 where
  pub returncode : ℤ
  pub stdout : String
  pub stderr : String

abbrev pub has_failed : Process → Bool
has_failed p = not (eq_ℤ p.returncode (pos 0))

abbrev pub finished : {W : Type 0} → (ℤ × String × String) × W → Step Process W
finished ((code, out, err), w) = did (record { returncode = code; stdout = out; stderr = err }) w

module _ (g : Git) where
  -- `git(args, cwd, check=False)`
  abbrev pub git_unchecked : List String → String → Io g.World Process
  git_unchecked args cwd w = finished (g.command args cwd w)

  -- `git(args, cwd)`
  abbrev pub git : List String → String → Io g.World Process
  git args cwd = do
    p ← git_unchecked args cwd
    if has_failed p then raise (trim p.stderr) else pure p

  module _ (path : String) where
    abbrev pub head : String → Io g.World String
    head rev = do p ← git ("rev-parse" ∷ rev ∷ []) path; pure (trim p.stdout)

    abbrev pub current_branch : Io g.World String
    current_branch = do
      p ← git ("rev-parse" ∷ "--abbrev-ref" ∷ "HEAD" ∷ []) path
      pure (trim p.stdout)

    abbrev pub branch_exists : String → Io g.World Bool
    branch_exists branch = do
      p ← git_unchecked ("rev-parse" ∷ "--verify" ∷ "-q" ∷ branch ∷ []) path
      pure (not (has_failed p))

    abbrev pub ensure_branch : String → String → Io g.World (Unit {0})
    ensure_branch branch base = do
      found ← branch_exists branch
      if found then pure tt else do git ("branch" ∷ branch ∷ base ∷ []) path; pure tt

    abbrev pub checkout : String → Io g.World (Unit {0})
    checkout branch = do git ("checkout" ∷ "-q" ∷ branch ∷ []) path; pure tt

    abbrev pub is_ancestor : String → String → Io g.World Bool
    is_ancestor ancestor descendant = do
      p ← git_unchecked ("merge-base" ∷ "--is-ancestor" ∷ ancestor ∷ descendant ∷ []) path
      pure (not (has_failed p))

    -- `task/{component_id}-a{attempt}`
    abbrev pub attempt_name : String → ℕ → String
    attempt_name component n = append (append (append "task/" component) "-a") (g.decimal n)

    -- The loop of `attempt_branch` on fuel, the attempt counted from `n`; `none` is no fuel left.
    unfoldable pub next_attempt : ℕ → String → ℕ → Io g.World (Option String)
    next_attempt zero component n = pure none
    next_attempt (suc fuel) component n = do
      let rest = next_attempt fuel component (suc n)
      taken ← branch_exists (attempt_name component n)
      if taken then rest else pure (some (attempt_name component n))

    -- the test whether the branch was merged
    unfoldable pub unless_live : ℕ → String → String → String → Io g.World (Option String)
    unless_live fuel component current base = do
      spent ← is_ancestor current base
      if not spent then pure (some current) else next_attempt fuel component 2

    -- the test whether the branch still sits on the baseline
    unfoldable pub unless_first : ℕ → String → String → String → Io g.World (Option String)
    unless_first fuel component current base = do
      tip ← head current
      baseline ← head base
      if tip == baseline then pure (some current) else unless_live fuel component current base

    unfoldable pub attempt_branch : ℕ → String → String → String → Io g.World (Option String)
    attempt_branch fuel component current base = do
      found ← branch_exists current
      if not found then pure (some current) else unless_first fuel component current base

    unfoldable pub remove_worktree : String → Io g.World (Unit {0})
    remove_worktree tree = do
      git_unchecked ("worktree" ∷ "remove" ∷ "--force" ∷ tree ∷ []) path
      pure tt

    abbrev pub attach_known : String → String → Io g.World String
    attach_known tree branch = do
      git ("worktree" ∷ "add" ∷ "-q" ∷ tree ∷ branch ∷ []) path
      pure tree

    abbrev pub attach_new : String → String → String → Io g.World String
    attach_new tree branch base = do
      git ("worktree" ∷ "add" ∷ "-q" ∷ "-b" ∷ branch ∷ tree ∷ base ∷ []) path
      pure tree

    -- the call of git that ends `add_worktree`
    abbrev pub attach : String → String → String → Io g.World String
    attach tree branch base = do
      found ← branch_exists branch
      if found then attach_known tree branch else attach_new tree branch base

    -- a call of the file system
    abbrev pub change : (g.World → g.World) → Io g.World (Unit {0})
    change f w = did tt (f w)

    abbrev pub ask : (g.World → Bool) → Io g.World Bool
    ask f w = did (f w) w

    -- the path has no worktree any more
    abbrev pub add_anew : String → String → String → Io g.World String
    add_anew tree branch base = do change (g.make_parent tree); attach tree branch base

    abbrev pub reuse_worktree : String → String → String → Io g.World String
    reuse_worktree tree branch base = do
      p ← git_unchecked ("rev-parse" ∷ "--abbrev-ref" ∷ "HEAD" ∷ []) tree
      if trim p.stdout == branch
          then pure tree
          else do remove_worktree tree; add_anew tree branch base

    unfoldable pub add_worktree : String → String → String → Io g.World String
    add_worktree tree branch base = do
      used ← ask (g.has_git tree)
      there ← ask (g.exists tree)
      if used
          then reuse_worktree tree branch base
          else do change (if there then g.clear tree else λ w. w); add_anew tree branch base

    abbrev pub abort_merge : Process → Io g.World String
    abort_merge p = do
      git_unchecked ("merge" ∷ "--abort" ∷ []) path
      raise (append (append (trim p.stdout) "\n") (trim p.stderr))

    unfoldable pub merge : String → String → Io g.World String
    merge branch message = do
      p ← git_unchecked ("merge" ∷ "--no-ff" ∷ "-q" ∷ branch ∷ "-m" ∷ message ∷ []) path
      if has_failed p then abort_merge p else head "HEAD"

  abbrev pub cache_pathspecs : List String
  cache_pathspecs =
      ":(exclude)**/__pycache__/**" ∷ ":(exclude)**/*.pyc" ∷ ":(exclude)**/.pytest_cache/**"
      ∷ ":(exclude)**/.mypy_cache/**" ∷ []

  unfoldable pub commit_all : String → String → Io g.World (Option String)
  commit_all worktree message = do
    git ("add" ∷ "-A" ∷ "--" ∷ "." ∷ cache_pathspecs) worktree
    diff ← git_unchecked ("diff" ∷ "--cached" ∷ "--quiet" ∷ []) worktree
    if not (has_failed diff) then pure none else do
      git ("commit" ∷ "-q" ∷ "-m" ∷ message ∷ []) worktree
      p ← git ("rev-parse" ∷ "HEAD" ∷ []) worktree
      pure (some (trim p.stdout))
