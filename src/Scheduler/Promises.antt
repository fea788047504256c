-- ===== src/Scheduler/Promises.antt =====
-- What single operations of minifleet/scheduler.py and of the scopes promise.
use minifleet.Prelude.{
  String, ◌≡◌, refl, ◌⊎◌, inl, inr, ◌↔◌, Bool, true, List, [], ◌∷◌, filter, contains, subset, All,
  Has, Has-filter, Has-map, Has-map_inv, All-at, All-filter, Has→contains, contains→Has, Bool-cases,
  arith, eq_iff,
}
use minifleet.Model.{TaskState, Task}
use minifleet.Scheduler.State.{is}
use minifleet.Scheduler.Scope.{scopes_overlap, rstrip_slash}
use minifleet.Scheduler.Wave.{merged_ids, may_start, promote}

-- Two scopes overlap whichever of them comes first.
pub scopes_overlap_comm :
    (fnmatch : String → String → Bool) (a b : String)
    → scopes_overlap fnmatch a b ≡ scopes_overlap fnmatch b a
unfolding scopes_overlap
scopes_overlap_comm fnmatch a b =
    ground
      (arith, eq_iff (rstrip_slash a) (rstrip_slash b), eq_iff (rstrip_slash b) (rstrip_slash a))

-- A merged task has the id.
abbrev pub IsMerged : List Task → String → Type 0
IsMerged ts d = (u : Task) × Has u ts × (u.id ≡ d) × (is TaskState.merged u ≡ true)

Has-filter_of :
    {A : Type 0} (p : A → Bool) (a : A) (xs : List A) → Has a xs → p a ≡ true → Has a (filter p xs)
Has-filter_of p a [] m h = absurd m
Has-filter_of p a (x ∷ xs) (inl e) h = let h' : p x ≡ true = rw e h in rw h' (inl e)
Has-filter_of p a (x ∷ xs) (inr m) h = elim (Bool-cases (p x)) [
  | inl e ↦ rw e (inr (Has-filter_of p a xs m h))
  | inr e ↦ rw e (Has-filter_of p a xs m h)
]

IsMerged-of_contains :
    (ts : List Task) (d : String) → contains (merged_ids ts) d ≡ true → IsMerged ts d
IsMerged-of_contains ts d h =
    let (u, m, e) =
      Has-map_inv (λ (t : Task). t.id) d (filter (is TaskState.merged) ts)
        (contains→Has (merged_ids ts) d h) in
    let done =
      All-at (λ t. is TaskState.merged t ≡ true) u (filter (is TaskState.merged) ts)
        (All-filter (is TaskState.merged) ts) m in
    (u, Has-filter (is TaskState.merged) u ts m, e, done)

contains_of_IsMerged :
    (ts : List Task) (d : String) → IsMerged ts d → contains (merged_ids ts) d ≡ true
contains_of_IsMerged ts d (u, m, e, done) = Has→contains (merged_ids ts) d (
    rw e at (
      Has-map (λ (t : Task). t.id) u (filter (is TaskState.merged) ts)
        (Has-filter_of (is TaskState.merged) u ts m done)))

IsMerged-of_subset :
    (ts : List Task) (ds : List String) → (subset ds (merged_ids ts) ≡ true) ↔ All (IsMerged ts) ds
IsMerged-of_subset ts [] = (λ h. tt, λ h. refl)
IsMerged-of_subset ts (d ∷ ds) =
    let (go, back) = IsMerged-of_subset ts ds in
    (
      λ h. (IsMerged-of_contains ts d (ground arith), go (ground arith)),
      λ (k, h). rw (contains_of_IsMerged ts d k, back h),
    )

-- After a refresh a task is ready exactly when it was ready before, or was pending and each of its
-- dependencies is the id of a merged task.
pub promote-ready_iff :
    (ts : List Task) (t : Task)
    → (is TaskState.ready (promote (merged_ids ts) t) ≡ true) ↔ (
        (is TaskState.ready t ≡ true)
        ⊎ ((is TaskState.pending t ≡ true) × All (IsMerged ts) t.depends_on))
promote-ready_iff ts t =
    let (go, back) = IsMerged-of_subset ts t.depends_on in
    elim (Bool-cases (may_start (merged_ids ts) t)) [
      | inl e ↦ rw e (λ h. inr (ground arith, go (ground arith)), λ h. refl)
      | inr e ↦ rw e (
        λ h. inl h,
        λ h. elim h [ inl r ↦ r | inr (p, m) ↦ let k = back m in absurd (ground arith) ],
      )
    ]
