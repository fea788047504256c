-- ===== src/Linksvc/Store/Lookup.antt =====
-- Looking up what was created.
use minifleet.Prelude.{
  ℕ, String, Bool, true, false, Option, some, List, [], ◌∷◌, ◌++◌, ◌≡◌, refl, ap, subst, ◌∙◌, any,
  arith, find, ◌==◌, inl, inr, Bool-cases, Option-cases, eq_iff, eq_refl, Has, find-append_none,
}
use minifleet.Model.{ℤ}
use minifleet.Linksvc.Store.{
  Result, ok, Link, LinkRow, Table, Order, Web, Call, has_code, has_key, by_code, by_key, row_stats,
  link_of, create, get, stats, perform_all,
}
use minifleet.Linksvc.Store.Effect.{Effect, denied, known, added, create-Effect}
use minifleet.Linksvc.Store.Unique.{IsUnique}
use minifleet.Linksvc.Store.Refines.{stats-perform_all}

find-Has : {A : Type 0} (p : A → Bool) (xs : List A) (a : A) → find p xs ≡ some a → Has a xs
find-Has p [] a h = cc
find-Has p (x ∷ xs) a h = elim (Bool-cases (p x)) [
  | inl e ↦ inl (cc (rw e at h))
  | inr e ↦ inr (find-Has p xs a (rw e at h))
]

any-of_Has :
    {A : Type 0} (p : A → Bool) (xs : List A) (a : A) → Has a xs → p a ≡ true → any p xs ≡ true
any-of_Has p [] a m h = absurd m
any-of_Has p (x ∷ xs) a (inl e) h = let k : p x ≡ true = rw e h in rw k refl
any-of_Has p (x ∷ xs) a (inr m) h = ground (arith, any-of_Has p xs a m h)

by_code-of_Has : (t : Table) (r : LinkRow) → IsUnique t → Has r t → by_code r.code t ≡ some r
by_code-of_Has [] r u m = absurd m
by_code-of_Has (q ∷ t) r u (inl e) =
    let same : (q.code == r.code) ≡ true = rw e (eq_refl r.code) in rw same (ap some e)
by_code-of_Has (q ∷ t) r (h, _, u) (inr m) = elim (Bool-cases (q.code == r.code)) [
  | inl e ↦
      let seen =
        any-of_Has (has_code q.code) t r m
          (ground (arith, eq_iff q.code r.code, eq_iff r.code q.code)) in
      absurd (ground arith)
  | inr e ↦ rw e (by_code-of_Has t r u m)
]

Effect-by_code :
    {k : Option String} {t : Table} {x : Result Link × Table} (l : Link)
    → Effect k t x
    → IsUnique t
    → x.0 ≡ ok l
    → (n : ℕ) × (row_stats (by_code l.code x.1) ≡ some (l, n))
Effect-by_code l (denied e) u h = cc
Effect-by_code {k} {t} l (known m f) u h = elim (Option-cases (by_key k t)) [
  | inl e ↦ absurd (ground arith)
  | inr (r, e) ↦
      let same : link_of r ≡ l = cc (rw e at f) in
      let row = by_code-of_Has t r u (find-Has (has_key k) t r e) in
      (
        r.clicks,
        subst (λ x. row_stats (by_code x.code t) ≡ some (x, r.clicks)) same (ap row_stats row),
      )
]
Effect-by_code {t = t} l (added r _ z f _) u h =
    let same : link_of r ≡ l = cc h in
    let row : by_code r.code (t ++ r ∷ []) ≡ some r =
      find-append_none (has_code r.code) t (r ∷ []) f ∙ rw (eq_refl r.code) refl in
    (
      r.clicks,
      subst (λ x. row_stats (by_code x.code (t ++ r ∷ [])) ≡ some (x, r.clicks)) same
          (ap row_stats row),
    )

pub get-stats :
    (c : String) (t : Table) (l : Link) (n : ℕ) → stats c t ≡ some (l, n) → get c t ≡ some l
unfolding get stats
get-stats c t l n h = elim (Bool-cases (c == "")) [
  | inl e ↦ absurd (cc (rw e at h))
  | inr e ↦ elim (Option-cases (by_code c t)) [
    | inl d ↦ absurd (cc (rw (e, d) at h))
    | inr (r, d) ↦ rw (e, d) (cc (rw (e, d) at h))
  ]
]

create-stats :
    (web : Web) (now : ℤ) (draws : List String) (o : Order) (t : Table) (l : Link)
    → IsUnique t
    → (create web now draws o t).0 ≡ ok l
    → (l.code == "") ≡ false
    → (n : ℕ) × (stats l.code (create web now draws o t).1 ≡ some (l, n))
unfolding stats
create-stats web now draws o t l u h e =
    let (n, seen) = Effect-by_code l (create-Effect web now draws o t) u h in (n, rw e seen)

-- A link that a create has answered with can be looked up from then on: after any further calls
-- its code, if it is not empty, still gives this link.
pub create-get :
    (web : Web) (now : ℤ) (draws : List String) (o : Order) (t : Table) (l : Link)
    → IsUnique t
    → (create web now draws o t).0 ≡ ok l
    → (l.code == "") ≡ false
    → (cs : List Call) → get l.code (perform_all web cs (create web now draws o t).1) ≡ some l
create-get web now draws o t l u h e cs =
    let (n, seen) = create-stats web now draws o t l u h e in
    get-stats l.code _ l _ (stats-perform_all web cs (create web now draws o t).1 l.code l n seen)
