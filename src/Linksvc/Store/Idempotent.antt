-- ===== src/Linksvc/Store/Idempotent.antt =====
-- A create that is sent again with its idempotency key.
use minifleet.Prelude.{
  String, Option, some, List, [], ◌∷◌, ◌++◌, ◌≡◌, refl, arith, ◌==◌, Option-cases, Bool-cases, inl,
  inr, sym, subst, ◌∙◌, find-append, find-append_none, eq_refl,
}
use minifleet.Model.{ℤ}
use minifleet.Linksvc.Store.{
  Result, ok, Link, LinkRow, Table, Order, Clean, has_key, same_key, row_link, link_of, by_key,
  click, record_click, create, store, checked, Call, creating, clicking, perform, perform_all, Web,
}
use minifleet.Linksvc.Store.Effect.{Effect, denied, known, added, create-Effect, checked-key}
use minifleet.Linksvc.Store.Unique.{click-key}

click-link : (c : String) (r : LinkRow) → link_of (click c r) ≡ link_of r
click-link c r = elim (Bool-cases (r.code == c)) [ inl e ↦ rw e refl | inr e ↦ rw e refl ]

record_click-by_key :
    (c : String) (k : Option String) (t : Table)
    → row_link (by_key k (record_click c t)) ≡ row_link (by_key k t)
unfolding record_click
record_click-by_key c k [] = refl
record_click-by_key c k (r ∷ t) = rw (click-key c r) (elim (Bool-cases (same_key k r.key)) [
  | inl e ↦ rw (e, click-link c r)
  | inr e ↦ rw e (record_click-by_key c k t)
])

by_key-append :
    (k : Option String) (t u : Table) (l : Link)
    → row_link (by_key k t) ≡ some l
    → row_link (by_key k (t ++ u)) ≡ some l
by_key-append k t u l h = elim (Option-cases (by_key k t)) [
  | inl e ↦ absurd (ground arith)
  | inr (r, e) ↦ rw (find-append (has_key k) t u r e) (rw e at h)
]

Effect-by_key :
    {j : Option String} {t : Table} {x : Result Link × Table} (k : Option String) (l : Link)
    → Effect j t x
    → row_link (by_key k t) ≡ some l
    → row_link (by_key k x.1) ≡ some l
Effect-by_key k l (denied e) h = h
Effect-by_key k l (known _ _) h = h
Effect-by_key {t = t} k l (added r _ _ _ _) h = by_key-append k t (r ∷ []) l h

perform-by_key :
    (web : Web) (c : Call) (k : Option String) (l : Link) (t : Table)
    → row_link (by_key k t) ≡ some l
    → row_link (by_key k (perform web c t)) ≡ some l
perform-by_key web (creating now draws o) k l t h =
    Effect-by_key k l (create-Effect web now draws o t) h
perform-by_key web (clicking c) k l t h = record_click-by_key c k t ∙ h

perform_all-by_key :
    (web : Web) (cs : List Call) (k : Option String) (l : Link) (t : Table)
    → row_link (by_key k t) ≡ some l
    → row_link (by_key k (perform_all web cs t)) ≡ some l
perform_all-by_key web [] k l t h = h
perform_all-by_key web (c ∷ cs) k l t h =
    perform_all-by_key web cs k l (perform web c t) (perform-by_key web c k l t h)

-- A create that succeeds leaves its link under its key.
Effect-remembers :
    {t : Table} {x : Result Link × Table} (k : String) (l : Link)
    → Effect (some k) t x
    → x.0 ≡ ok l
    → row_link (by_key (some k) x.1) ≡ some l
Effect-remembers k l (denied e) h = cc
Effect-remembers k l (known m f) h = cc
Effect-remembers {t} k l (added r e _ _ j) h =
    rw (find-append_none (has_key (some k)) t (r ∷ []) j, e, eq_refl k) (cc h)

store-by_key :
    (web : Web) (now : ℤ) (draws : List String) (c : Clean) (t : Table) (l : Link)
    → row_link (by_key c.key t) ≡ some l
    → store web now draws c t ≡ (ok l, t)
unfolding store
store-by_key web now draws c t l h = elim (Option-cases (by_key c.key t)) [
  | inl e ↦ absurd (ground arith)
  | inr (r, e) ↦ rw e (cc (rw e at h))
]

-- Once a create with an idempotency key has given a link, then after any further calls, in any
-- order, another create with that key that passes the checks, whatever its url, alias and time to
-- live, gives the same link and changes nothing.
pub create-again :
    (web : Web) (now : ℤ) (draws : List String) (o : Order) (t : Table) (k : String) (l : Link)
    → o.key ≡ some k
    → (create web now draws o t).0 ≡ ok l
    → (cs : List Call) (later : ℤ) (others : List String) (again : Order) (c : Clean)
    → again.key ≡ some k
    → checked web again ≡ ok c
    → create web later others again (perform_all web cs (create web now draws o t).1)
      ≡ (ok l, perform_all web cs (create web now draws o t).1)
unfolding create
create-again web now draws o t k l e h cs later others again c e2 h2 =
    let t' = (create web now draws o t).1 in
    let first : row_link (by_key (some k) t') ≡ some l =
      Effect-remembers k l
        (subst (λ j. Effect j t (create web now draws o t)) e (create-Effect web now draws o t))
        h in
    let kept = perform_all-by_key web cs (some k) l t' first in
    rw h2 (
      store-by_key web later others c (perform_all web cs t') l
        (rw (sym (checked-key web again c h2) ∙ e2) kept))
