-- ===== src/Linksvc/Store/Effect.antt =====
-- The three ways in which `create` ends: a refusal, the link of a known key, and a new row.
use minifleet.Prelude.{
  String, false, Option, some, List, [], ◌∷◌, ◌++◌, ◌≡◌, refl, sym, subst, any, arith, inl, inr,
  Option-cases, Bool-cases, ◌||◌, ◌⊎◌,
}
use minifleet.Model.{ℤ}
use minifleet.Linksvc.Store.{
  Refusal, Result, ok, refused, ◌>>=◌, Web, Link, Order, Clean, LinkRow, Table, link_of, row_link,
  by_key, has_code, has_key, checked, create, cleaned, with_alias, clean_alias, normalize_url,
  is_ttl, is_key, store, insert_at, conflict, target_code, fresh_row,
}

pub data Effect (k : Option String) (t : Table) : Result Link × Table → Type 0 where
  denied : (e : Refusal) → Effect k t (refused e, t)
  known : (l : Link) → row_link (by_key k t) ≡ some l → Effect k t (ok l, t)
  added :
      (r : LinkRow)
      → r.key ≡ k
      → r.clicks ≡ 0
      → any (has_code r.code) t ≡ false
      → any (has_key k) t ≡ false
      → Effect k t (ok (link_of r), t ++ r ∷ [])

conflict-Effect :
    (k : Option String) (code : String) (t : Table) → Effect k t (conflict code (by_key k t), t)
conflict-Effect k code t = elim (Option-cases (by_key k t)) [
  | inl e ↦ rw e (Effect.denied (Refusal.taken code))
  | inr (r, e) ↦ rw e (Effect.known (link_of r) (rw e))
]

insert_at-Effect :
    (web : Web) (now : ℤ) (c : Clean) (t : Table) (target : Result String)
    → Effect c.key t (insert_at web now c t target)
insert_at-Effect web now c t (refused e) = Effect.denied e
insert_at-Effect web now c t (ok code) =
    let r = fresh_row web now c code in
    elim (Bool-cases (any (has_code code) t || any (has_key c.key) t)) [
      | inl e ↦ rw e (conflict-Effect c.key code t)
      | inr e ↦ rw e (Effect.added r refl refl (ground arith) (ground arith))
    ]

pub store-Effect :
    (web : Web) (now : ℤ) (draws : List String) (c : Clean) (t : Table)
    → Effect c.key t (store web now draws c t)
unfolding store
store-Effect web now draws c t = elim (Option-cases (by_key c.key t)) [
  | inl e ↦ rw e (insert_at-Effect web now c t (target_code c.alias draws t))
  | inr (r, e) ↦ rw e (Effect.known (link_of r) (rw e))
]

bind-ok :
    {A B : Type 0} (m : Result A) (f : A → Result B) (b : B)
    → (m >>= f) ≡ ok b
    → (a : A) × (m ≡ ok a) × (f a ≡ ok b)
bind-ok (ok a) f b h = (a, refl, h)
bind-ok (refused e) f b h = cc

cleaned-key :
    (o : Order) (url : String) (alias : Option String) (c : Clean)
    → cleaned o url alias ≡ ok c
    → o.key ≡ c.key
cleaned-key o url alias c h = elim (Bool-cases (is_ttl o.ttl)) [
  | inl e ↦ elim (Bool-cases (is_key o.key)) [
    | inl d ↦ cc (rw (e, d) at h)
    | inr d ↦ absurd (cc (rw (e, d) at h))
  ]
  | inr e ↦ absurd (cc (rw e at h))
]

-- The checks pass the key on.
pub checked-key : (web : Web) (o : Order) (c : Clean) → checked web o ≡ ok c → o.key ≡ c.key
unfolding checked
checked-key web o c h =
    let (url, _, h1) = bind-ok (normalize_url web o.url) (with_alias o) c h in
    let (alias, _, h2) = bind-ok (clean_alias o.alias) (cleaned o url) c h1 in
    cleaned-key o url alias c h2

Result-cases :
    {A : Type 0} (m : Result A) → ((a : A) × (m ≡ ok a)) ⊎ ((e : Refusal) × (m ≡ refused e))
Result-cases (ok a) = inl (a, refl)
Result-cases (refused e) = inr (e, refl)

pub create-Effect :
    (web : Web) (now : ℤ) (draws : List String) (o : Order) (t : Table)
    → Effect o.key t (create web now draws o t)
unfolding create
create-Effect web now draws o t = elim (Result-cases (checked web o)) [
  | inl (c, e) ↦ rw e (
      subst (λ k. Effect k t (store web now draws c t)) (sym (checked-key web o c e))
        (store-Effect web now draws c t))
  | inr (r, e) ↦ rw e (Effect.denied r)
]
