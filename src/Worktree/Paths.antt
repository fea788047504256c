-- ===== src/Worktree/Paths.antt =====
-- The list of the changed files.
use minifleet.Prelude.{
  String, Bool, true, false, not, ◌&&◌, ◌||◌, List, [], ◌∷◌, ◌++◌, map, filter, ◌≡◌, refl, sym, ap,
  ◌∙◌, arith, ◌⊎◌, inl, inr, Bool-cases, contains, contains-dedup, contains-append,
  contains-map-sort_by, dedup, sort_by, IsSortedBy, sort_by-IsSortedBy, str_le, str_le_total,
  str_le_trans, eq_iff,
}
use minifleet.Worktree.Files.{changed_paths, words, untracked, text_lines, is_cache_path}

contains-filter :
    (p : String → Bool) (xs : List String) (a : String)
    → contains (filter p xs) a ≡ (contains xs a && p a)
contains-filter p [] a = refl
contains-filter p (x ∷ xs) a = ground (arith, contains-filter p xs a, eq_iff x a)

map_id : (xs : List String) → map (λ x. x) xs ≡ xs
map_id [] = refl
map_id (x ∷ xs) = ap (λ ys. x ∷ ys) (map_id xs)

contains-sort_by : (xs : List String) (a : String) → contains (sort_by str_le xs) a ≡ contains xs a
contains-sort_by xs a =
    ap (λ ys. contains ys a) (sym (map_id (sort_by str_le xs)))
    ∙ contains-map-sort_by str_le (λ x. x) xs a
    ∙ ap (λ ys. contains ys a) (map_id xs)

str_le-cases : (a b : String) → (str_le a b ≡ true) ⊎ (str_le b a ≡ true)
str_le-cases a b = elim (Bool-cases (str_le a b)) [
  | inl e ↦ inl e
  | inr e ↦ inr (str_le_total a b e)
]

-- The changed files are in order, and a path is one of them exactly when git names it, as a change
-- of a tracked file or as an untracked file, and it is no cache.
pub changed_paths_iff :
    (tracked status : String)
    → IsSortedBy str_le (changed_paths tracked status)
      × ((p : String)
          → contains (changed_paths tracked status) p ≡ (
              (contains (words tracked) p || contains (untracked (text_lines false status)) p)
              && not (is_cache_path p)))
unfolding changed_paths
changed_paths_iff tracked status =
    let named = words tracked ++ untracked (text_lines false status) in
    let kept = filter (λ p. not (is_cache_path p)) named in
    (
      sort_by-IsSortedBy str_le str_le-cases str_le_trans (dedup kept),
      λ p.
          contains-sort_by (dedup kept) p
          ∙ contains-dedup kept p
          ∙ contains-filter (λ q. not (is_cache_path q)) named p
          ∙ ap (λ b. b && not (is_cache_path p))
              (contains-append (words tracked) (untracked (text_lines false status)) p),
    )
