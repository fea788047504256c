-- ===== src/Linksvc/Api/Redirect.antt =====
-- A redirect and what the statistics say of it.
use minifleet.Prelude.{
  ℕ, ◌+◌, String, true, false, none, some, ◌≡◌, refl, ◌∙◌, ◌==◌, ◌⊎◌, inl, inr, Bool-cases,
  Option-cases, eq_refl,
}
use minifleet.Linksvc.Store.{Link, Table, by_code, get, stats, record_click, expired}
use minifleet.Linksvc.Store.Lookup.{get-stats}
use minifleet.Linksvc.Store.Refines.{click-view}
use minifleet.Linksvc.Api.{
  ServiceState, Moment, Handled, Complaint, fail, reply, plain, nothing, gone, location, redirect,
  found,
}

get-stats-none : (c : String) (t : Table) → stats c t ≡ none → get c t ≡ none
unfolding get stats
get-stats-none c t h = elim (Bool-cases (c == "")) [
  | inl e ↦ rw e refl
  | inr e ↦ elim (Option-cases (by_code c t)) [
    | inl d ↦ rw (e, d) refl
    | inr (r, d) ↦ absurd (cc (rw (e, d) at h))
  ]
]

click-stats :
    (c : String) (t : Table) (l : Link) (n : ℕ)
    → stats c t ≡ some (l, n)
    → stats c (record_click c t) ≡ some (l, n + 1)
unfolding stats
click-stats c t l n h = elim (Bool-cases (c == "")) [
  | inl e ↦ absurd (cc (rw e at h))
  | inr e ↦ let step = click-view c t c in rw e (step ∙ rw (eq_refl c, (rw e at h)) refl)
]

-- What a redirect answers, by what the statistics of its code say before.
abbrev pub IsRedirect : Moment → String → ServiceState → Handled → Type 0
IsRedirect m code s h =
    ((stats code s.store ≡ none) × (h.0 ≡ fail 404 Complaint.unknown_code) × (h.1.store ≡ s.store))
    ⊎ ((l : Link) × (n : ℕ) × (stats code s.store ≡ some (l, n))
        × (((expired m.now l ≡ true) × (h.0 ≡ reply 410 (gone code) plain) × (h.1.store ≡ s.store))
            ⊎ ((expired m.now l ≡ false)
                × (h.0 ≡ reply 302 nothing (location l.url))
                × (stats code h.1.store ≡ some (l, n + 1)))))

found-IsRedirect :
    (m : Moment) (code : String) (s : ServiceState) (l : Link) (n : ℕ)
    → stats code s.store ≡ some (l, n)
    → IsRedirect m code s (found m code (some l) s)
found-IsRedirect m code s l n h = elim (Bool-cases (expired m.now l)) [
  | inl e ↦ inr (l, n, h, rw e (inl (refl, refl, refl)))
  | inr e ↦ inr (l, n, h, rw e (inr (refl, refl, click-stats code s.store l n h)))
]

-- A redirect answers 404 when the statistics do not know its code; when they do, it answers 410 if
-- the link has expired, and otherwise 302 with the URL of the link, and then, and only then, the
-- statistics show the same link with one click more.
pub redirect-IsRedirect :
    (m : Moment) (code : String) (s : ServiceState) → IsRedirect m code s (redirect m code s)
unfolding redirect
redirect-IsRedirect m code s = elim (Option-cases (stats code s.store)) [
  | inl e ↦ rw (get-stats-none code s.store e) (inl (e, refl, refl))
  | inr ((l, n), e) ↦ rw (get-stats code s.store l n e) (found-IsRedirect m code s l n e)
]
