-- ===== src/Linksvc/Store/Refines.antt =====
-- What a client sees of the store, whatever the order of the rows: a map from codes to links with
-- their clicks.
use minifleet.Prelude.{
  ℕ, ◌+◌, String, false, Option, none, some, List, [], ◌∷◌, ◌++◌, ◌≡◌, refl, ap, any, arith, ◌==◌,
  ◌⊎◌, inl, inr, Bool-cases, if◌then◌else◌, eq_iff, find-none, sym, ◌∙◌,
}
use minifleet.Linksvc.Store.{
  Result, Link, LinkRow, Table, has_code, row_stats, link_of, by_code, record_click, create, Call,
  creating, clicking, perform, perform_all, Web, stats,
}
use minifleet.Linksvc.Store.Effect.{Effect, denied, known, added, create-Effect}
use minifleet.Linksvc.Store.Unique.{click-code}

abbrev pub View : Type 0
View = String → Option (Link × ℕ)

abbrev pub view : Table → View
view t c = row_stats (by_code c t)

abbrev pub add_clicks : ℕ → Option (Link × ℕ) → Option (Link × ℕ)
add_clicks n none = none
add_clicks n (some (l, k)) = some (l, k + n)

-- What a call may do to the map: a click counts one at its code, if it is there, and a create
-- changes nothing or adds an unclicked link at a code that had none.
abbrev pub IsStep : Call → View → View → Type 0
IsStep (clicking c) v w = (d : String) → w d ≡ (if c == d then add_clicks 1 (v d) else v d)
IsStep (creating _ _ _) v w =
    ((d : String) → w d ≡ v d)
    ⊎ ((l : Link) × (v l.code ≡ none)
        × ((d : String) → w d ≡ (if l.code == d then some (l, 0) else v d)))

pub click-view : (c : String) (t : Table) → IsStep (clicking c) (view t) (view (record_click c t))
unfolding record_click
click-view c [] d = elim (Bool-cases (c == d)) [ inl e ↦ rw e refl | inr e ↦ rw e refl ]
click-view c (r ∷ t) d = elim (Bool-cases (r.code == d)) [
  | inl e ↦
      rw (click-code c r, e)
        (let same : r.code ≡ d = (eq_iff r.code d).0 e in
          elim (Bool-cases (r.code == c)) [
            | inl h ↦ ground (arith, eq_iff r.code c, eq_iff c d)
            | inr h ↦ ground (arith, eq_iff c d, eq_iff r.code c)
          ])
  | inr e ↦ rw (click-code c r, e) (click-view c t d)
]

view-append :
    (r : LinkRow) (t : Table) (d : String)
    → any (has_code r.code) t ≡ false
    → view (t ++ r ∷ []) d ≡ (if r.code == d then some (link_of r, r.clicks) else view t d)
view-append r [] d h = elim (Bool-cases (r.code == d)) [ inl e ↦ rw e refl | inr e ↦ rw e refl ]
view-append r (q ∷ t) d h = elim (Bool-cases (q.code == d)) [
  | inl e ↦ rw e (ground (arith, eq_iff q.code d, eq_iff r.code d, eq_iff q.code r.code))
  | inr e ↦ rw e (view-append r t d (ground arith))
]

create-view :
    {k : Option String} {t : Table} {x : Result Link × Table}
    → Effect k t x
    → ((d : String) → view x.1 d ≡ view t d)
      ⊎ ((l : Link) × (view t l.code ≡ none)
          × ((d : String) → view x.1 d ≡ (if l.code == d then some (l, 0) else view t d)))
create-view (denied e) = inl (λ d. refl)
create-view (known l h) = inl (λ d. refl)
create-view {t = t} (added r _ z h _) = inr (
  link_of r,
  ap row_stats (find-none (has_code r.code) t h),
  λ d. rw (sym z) (view-append r t d h),
)

-- A call of the store refines the step of the map: a click adds one at its code and nothing
-- elsewhere, and a create either leaves every code as it is or adds one new link, without clicks,
-- at a code that was free.
pub perform-IsStep : (web : Web) (c : Call) (t : Table) → IsStep c (view t) (view (perform web c t))
perform-IsStep web (creating now draws o) t = create-view (create-Effect web now draws o t)
perform-IsStep web (clicking c) t = click-view c t

-- The clicks among the calls, at one code.
abbrev pub clicks_at : String → List Call → ℕ
clicks_at d [] = 0
clicks_at d (creating _ _ _ ∷ cs) = clicks_at d cs
clicks_at d (clicking c ∷ cs) = if c == d then 1 + clicks_at d cs else clicks_at d cs

perform_all-view :
    (web : Web) (cs : List Call) (t : Table) (d : String) (l : Link) (n : ℕ)
    → view t d ≡ some (l, n)
    → view (perform_all web cs t) d ≡ some (l, n + clicks_at d cs)
perform_all-view web [] t d l n h = h ∙ ap (λ k. some (l, k)) (omega arith)
perform_all-view web (creating now draws o ∷ cs) t d l n h =
    perform_all-view web cs (create web now draws o t).1 d l n
      (elim (create-view (create-Effect web now draws o t)) [
        | inl same ↦ same d ∙ h
        | inr (m, free, at) ↦ elim (Bool-cases (m.code == d)) [
          | inl e ↦ absurd (ground (arith, eq_iff m.code d))
          | inr e ↦ at d ∙ rw e h
        ]
      ])
perform_all-view web (clicking c ∷ cs) t d l n h = elim (Bool-cases (c == d)) [
  | inl e ↦ rw e (
      perform_all-view web cs (record_click c t) d l (n + 1) (click-view c t d ∙ rw (e, h) refl)
      ∙ ap (λ k. some (l, k)) (omega arith))
  | inr e ↦ rw e (perform_all-view web cs (record_click c t) d l n (click-view c t d ∙ rw e h))
]

-- No click is lost, and a link never changes: when the statistics of a code give a link with n
-- clicks, then after any calls they give the same link, with n and the number of the clicks among
-- these calls that name the code, wherever they stand.
pub stats-perform_all :
    (web : Web) (cs : List Call) (t : Table) (d : String) (l : Link) (n : ℕ)
    → stats d t ≡ some (l, n)
    → stats d (perform_all web cs t) ≡ some (l, n + clicks_at d cs)
unfolding stats
stats-perform_all web cs t d l n h = elim (Bool-cases (d == "")) [
  | inl e ↦ absurd (ground arith)
  | inr e ↦ rw e (perform_all-view web cs t d l n (rw e at h))
]
