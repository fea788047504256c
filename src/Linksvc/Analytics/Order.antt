-- ===== src/Linksvc/Analytics/Order.antt =====
-- What stands on the page of the most-clicked links.
use minifleet.Prelude.{
  ℕ, zero, suc, ◌≤◌, ◌<◌, Bool, true, some, List, [], ◌∷◌, ◌≡◌, refl, arith, ◌⊎◌, inl, inr, All,
  Has, All-at, length, take, filter, sort_by, IsSortedBy, sort_by-IsSortedBy, str_le, str_le_total,
  str_le_trans, Option-cases, length-take-le, Has-filter, Has-sort_by, Has-sort_by_of, All-filter,
  Has-filter_of, Has-take, All-take, subst,
}
use minifleet.Model.{ℤ, pos, negsuc, lt_ℤ}
use minifleet.Model.{lt_ℤ-cases, eq_ℤ→eq, eq_ℤ-refl, lt_ℤ-trans}
use minifleet.Linksvc.Store.{LinkRow, Table}
use minifleet.Linksvc.Analytics.{validate_limit, ranks, is_clicked, page, top_links}

-- The order of two rows, as a sum.
abbrev Ranks : LinkRow → LinkRow → Type 0
Ranks a b =
    (b.clicks < a.clicks)
    ⊎ ((a.clicks ≡ b.clicks)
        × ((lt_ℤ a.created_at b.created_at ≡ true)
            ⊎ ((a.created_at ≡ b.created_at) × (str_le a.code b.code ≡ true))))

ranks→Ranks : (a b : LinkRow) → ranks a b ≡ true → Ranks a b
ranks→Ranks a b h = ground (arith, eq_ℤ→eq a.created_at b.created_at)

Ranks→ranks : (a b : LinkRow) → Ranks a b → ranks a b ≡ true
Ranks→ranks a b (inl h) = ground arith
Ranks→ranks a b (inr (h, inl k)) = ground arith
Ranks→ranks a b (inr (h, inr (k, j))) = ground (arith, eq_ℤ-refl a.created_at)

ranks_total : (a b : LinkRow) → (ranks a b ≡ true) ⊎ (ranks b a ≡ true)
ranks_total a b = ground (
  arith,
  lt_ℤ-cases a.created_at b.created_at,
  eq_ℤ→eq a.created_at b.created_at,
  eq_ℤ-refl a.created_at,
  str_le_total a.code b.code,
)

Ranks-trans : (a b c : LinkRow) → Ranks a b → Ranks b c → Ranks a c
Ranks-trans a b c h k =
    ground
      (arith, lt_ℤ-trans a.created_at b.created_at c.created_at, str_le_trans a.code b.code c.code)

ranks_trans : (a b c : LinkRow) → ranks a b ≡ true → ranks b c ≡ true → ranks a c ≡ true
ranks_trans a b c h k = Ranks→ranks a c (Ranks-trans a b c (ranks→Ranks a b h) (ranks→Ranks b c k))

-- A prefix of a sorted list is sorted, and what stands behind it ranks after it.
take-IsSortedBy :
    (le : LinkRow → LinkRow → Bool) (n : ℕ) (xs : List LinkRow)
    → IsSortedBy le xs
    → IsSortedBy le (take n xs)
take-IsSortedBy le zero xs s = tt
take-IsSortedBy le (suc n) [] s = tt
take-IsSortedBy le (suc n) (x ∷ xs) (h, s) =
    (All-take (λ y. le x y ≡ true) n xs h, take-IsSortedBy le n xs s)

below-take :
    (le : LinkRow → LinkRow → Bool) (n : ℕ) (r : LinkRow) (xs : List LinkRow)
    → IsSortedBy le xs
    → Has r xs
    → Has r (take n xs) ⊎ (All (λ q. le q r ≡ true) (take n xs) × (length (take n xs) ≡ n))
below-take le zero r xs s m = inr (tt, refl)
below-take le (suc n) r [] s m = absurd m
below-take le (suc n) r (x ∷ xs) s (inl e) = inl (inl e)
below-take le (suc n) r (x ∷ xs) (h, s) (inr m) = elim (below-take le n r xs s m) [
  | inl k ↦ inl (inr k)
  | inr k ↦ inr ((All-at (λ y. le x y ≡ true) r xs h m, k.0), omega (arith, k.1))
]

-- The page of a table: sorted, of clicked links, and no clicked link is left out but when the page
-- is full of links that rank before it.
abbrev pub IsPage : ℕ → Table → Table → Type 0
IsPage n t p =
    (length p ≤ n)
    × IsSortedBy ranks p
    × ((r : LinkRow) → Has r p → Has r t × (is_clicked r ≡ true))
    × ((r : LinkRow)
        → Has r t
        → is_clicked r ≡ true
        → Has r p ⊎ (All (λ q. ranks q r ≡ true) p × (length p ≡ n)))

page-IsPage : (n : ℕ) (t : Table) → IsPage n t (page n t)
page-IsPage n t =
    let clicked = filter is_clicked t in
    let sorted = sort_by ranks clicked in
    (
      length-take-le n sorted,
      take-IsSortedBy ranks n sorted (sort_by-IsSortedBy ranks ranks_total ranks_trans clicked),
      λ r m.
          let inside = Has-sort_by ranks r clicked (Has-take n r sorted m) in
          (
            Has-filter is_clicked r t inside,
            All-at (λ q. is_clicked q ≡ true) r clicked (All-filter is_clicked t) inside,
          ),
      λ r m h.
          below-take ranks n r sorted (sort_by-IsSortedBy ranks ranks_total ranks_trans clicked)
            (Has-sort_by_of ranks r clicked (Has-filter_of is_clicked r t m h)),
    )

validate_limit-bounds :
    (limit : ℤ) (n : ℕ) → validate_limit limit ≡ some n → (limit ≡ pos n) × (1 ≤ n) × (n ≤ 100)
unfolding validate_limit
validate_limit-bounds (negsuc m) n h = cc
validate_limit-bounds (pos m) n h = ground arith

-- When `top_links` answers, the limit is from 1 to 100, and the answer is the page of that size:
-- at most that many links, each clicked and in the table, the more clicks the earlier and ties by
-- age and code; and a clicked link that is not on it ranks after every link of a full page.
pub top_links-IsPage :
    (limit : ℤ) (t p : Table)
    → top_links limit t ≡ some p
    → (n : ℕ) × (limit ≡ pos n) × (1 ≤ n) × (n ≤ 100) × IsPage n t p
unfolding top_links
top_links-IsPage limit t p h = elim (Option-cases (validate_limit limit)) [
  | inl e ↦ absurd (cc (rw e at h))
  | inr (n, e) ↦
      let (a, b, c) = validate_limit-bounds limit n e in
      let same : page n t ≡ p = cc (rw e at h) in
      (n, a, b, c, subst (IsPage n t) same (page-IsPage n t))
]
