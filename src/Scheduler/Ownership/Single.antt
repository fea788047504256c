-- ===== src/Scheduler/Ownership/Single.antt =====
-- What `ownership_conflicts` of minifleet/worktree.py promises when it reports nothing.
use minifleet.Prelude.{
  String, ◌≡◌, refl, sym, ap, ◌∙◌, inl, inr, Option, none, some, List, [], ◌∷◌, ◌==◌, Dict, lookup,
  lookup-insert, Has, All, All-at, All-mono, map-nil, Bool-cases, arith, eq_iff, eq_refl,
}
use minifleet.Scheduler.Ownership.{
  Pair, Claims, add_path, in_order, claim_of, claim, claim_all, claim_branches, ownership_conflicts,
}

-- What is seen of a branch stays.
abbrev Keeps : Claims → Claims → Type 0
Keeps c d = (q o : String) → lookup q c.seen ≡ some o → lookup q d.seen ≡ some o

-- The claims that led to no conflict: there was none before, and the branch has the paths.
abbrev Settles : Claims → Claims → String → List String → Type 0
Settles c d branch paths =
    (c.conflicts ≡ []) × Keeps c d × All (λ p. lookup p d.seen ≡ some branch) paths

add_path-cons : (k : Pair) (p : String) (l : List (Pair × List String)) → add_path k p l ≡ [] → ⊥
unfolding add_path
add_path-cons k p [] h = ground arith
add_path-cons k p ((j, m) ∷ l) h = ground arith

claim_of-Settles :
    (o : Option String) (branch p : String) (c : Claims)
    → lookup p c.seen ≡ o
    → (claim_of o branch p c).conflicts ≡ []
    → Settles c (claim_of o branch p c) branch (p ∷ [])
claim_of-Settles none branch p c e h = (
  h,
  λ q o k. elim (Bool-cases (p == q)) [
    | inl same ↦
        let it : p ≡ q = (eq_iff p q).0 same in
        let gone : lookup q c.seen ≡ none = rw it at e in absurd (ground (arith, gone, k))
    | inr other ↦ lookup-insert p q branch c.seen ∙ rw other k
  ],
  (lookup-insert p p branch c.seen ∙ rw (eq_refl p) refl, tt),
)
claim_of-Settles (some owner) branch p c e h = elim (Bool-cases (owner == branch)) [
  | inl same ↦
      let kept : c.conflicts ≡ [] = rw same at h in
      rw same (kept, λ q o k. k, (e ∙ ap some ((eq_iff owner branch).0 same), tt))
  | inr other ↦
      let grown : add_path (in_order owner branch) p c.conflicts ≡ [] = rw other at h in
      absurd (add_path-cons (in_order owner branch) p c.conflicts grown)
]

claim-Settles :
    (branch p : String) (c : Claims)
    → (claim branch p c).conflicts ≡ []
    → Settles c (claim branch p c) branch (p ∷ [])
claim-Settles branch p c h = claim_of-Settles (lookup p c.seen) branch p c refl h

claim_all-Settles :
    (branch : String) (paths : List String) (c : Claims)
    → (claim_all branch paths c).conflicts ≡ []
    → Settles c (claim_all branch paths c) branch paths
unfolding claim_all
claim_all-Settles branch [] c h = (h, λ q o k. k, tt)
claim_all-Settles branch (p ∷ ps) c h =
    let (none_then, keeps, owned) = claim_all-Settles branch ps (claim branch p c) h in
    let (none_first, keeps_first, mine) = claim-Settles branch p c none_then in
    (none_first, λ q o k. keeps q o (keeps_first q o k), (keeps p branch mine.0, owned))

claim_branches-seen :
    (bs : Dict (List String)) (c : Claims)
    → (claim_branches bs c).conflicts ≡ []
    → (c.conflicts ≡ [])
      × Keeps c (claim_branches bs c)
      × All (λ b. All (λ p. lookup p (claim_branches bs c).seen ≡ some b.0) b.1) bs
unfolding claim_branches
claim_branches-seen [] c h = (h, λ q o k. k, tt)
claim_branches-seen ((branch, files) ∷ bs) c h =
    let (none_then, keeps, rest) = claim_branches-seen bs (claim_all branch files c) h in
    let (none_first, keeps_first, mine) = claim_all-Settles branch files c none_then in
    (
      none_first,
      λ q o k. keeps q o (keeps_first q o k),
      (All-mono files (λ p k. keeps p branch k) mine, rest),
    )

-- If no conflict is reported, a path that two branches touch is touched by one branch only: the
-- two have the same name.
pub ownership_conflicts-nil :
    (bs : Dict (List String)) (a b : String) (xs ys : List String) (p : String)
    → ownership_conflicts bs ≡ []
    → Has (a, xs) bs
    → Has (b, ys) bs
    → Has p xs
    → Has p ys
    → a ≡ b
unfolding ownership_conflicts
ownership_conflicts-nil bs a b xs ys p h m n k l =
    let start : Claims = record { seen = []; conflicts = [] } in
    let (_, _, owned) = claim_branches-seen bs start (map-nil _ _ h) in
    let final = (claim_branches bs start).seen in
    let mine =
      All-at (λ p. lookup p final ≡ some a) p xs
        (All-at (λ (b : String × List String). All (λ p. lookup p final ≡ some b.0) b.1) (a, xs) bs
          owned m)
        k in
    let theirs =
      All-at (λ p. lookup p final ≡ some b) p ys
        (All-at (λ (b : String × List String). All (λ p. lookup p final ≡ some b.0) b.1) (b, ys) bs
          owned n)
        l in
    let both : some a ≡ some b = sym mine ∙ theirs in cc
