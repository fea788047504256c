-- ===== src/Linksvc/Store/Unique.antt =====
-- The PRIMARY KEY and the UNIQUE column of the table, kept by every call that writes it.
use minifleet.Prelude.{
  String, Bool, false, Option, none, some, List, [], ◌∷◌, ◌++◌, ◌≡◌, refl, any, arith, map, ◌==◌,
  eq_iff, any-append, if-both,
}
use minifleet.Linksvc.Store.{
  LinkRow, Table, has_code, has_key, same_key, click, record_click, create, Call, creating,
  clicking, perform, perform_all, Web,
}
use minifleet.Linksvc.Store.Effect.{Effect, denied, known, added, create-Effect}

-- no code twice, and no idempotency key twice
abbrev pub IsUnique : Table → Type 0
IsUnique [] = Unit
IsUnique (r ∷ t) = (any (has_code r.code) t ≡ false) × (any (has_key r.key) t ≡ false) × IsUnique t

same_key_sym : (a b : Option String) → same_key a b ≡ same_key b a
same_key_sym none none = refl
same_key_sym none (some b) = refl
same_key_sym (some a) none = refl
same_key_sym (some a) (some b) = ground (arith, eq_iff a b, eq_iff b a)

IsUnique-append :
    (r : LinkRow) (t : Table)
    → any (has_code r.code) t ≡ false
    → any (has_key r.key) t ≡ false
    → IsUnique t
    → IsUnique (t ++ r ∷ [])
IsUnique-append r [] h k u = (refl, refl, tt)
IsUnique-append r (q ∷ t) h k u = (
  ground
      (arith, any-append (has_code q.code) t (r ∷ []), eq_iff q.code r.code, eq_iff r.code q.code),
  ground (arith, any-append (has_key q.key) t (r ∷ []), same_key_sym q.key r.key),
  IsUnique-append r t (ground arith) (ground arith) u.2,
)

pub click-code : (c : String) (r : LinkRow) → (click c r).code ≡ r.code
click-code c r = if-both (λ (q : LinkRow). q.code ≡ r.code) (r.code == c) refl refl

pub click-key : (c : String) (r : LinkRow) → (click c r).key ≡ r.key
click-key c r = if-both (λ (q : LinkRow). q.key ≡ r.key) (r.code == c) refl refl

pub any-map {ℓ κ} :
    {A : Type ℓ} {B : Type κ} (p : B → Bool) (q : A → Bool) (f : A → B) (xs : List A)
    → ((x : A) → p (f x) ≡ q x)
    → any p (map f xs) ≡ any q xs
any-map p q f [] h = refl
any-map p q f (x ∷ xs) h = rw (h x, any-map p q f xs h)

pub record_click-IsUnique : (c : String) (t : Table) → IsUnique t → IsUnique (record_click c t)
unfolding record_click
record_click-IsUnique c [] u = tt
record_click-IsUnique c (r ∷ t) u =
    rw
      (
        click-code c r,
        click-key c r,
        any-map (has_code r.code) (has_code r.code) (click c) t (λ q. rw (click-code c q)),
        any-map (has_key r.key) (has_key r.key) (click c) t (λ q. rw (click-key c q)),
      )
      (u.0, u.1, record_click-IsUnique c t u.2)

pub create-IsUnique :
    {k : Option String} {t : Table} (x : _) → Effect k t x → IsUnique t → IsUnique x.1
create-IsUnique _ (denied e) u = u
create-IsUnique _ (known l h) u = u
create-IsUnique {k} {t} _ (added r e _ h j) u = IsUnique-append r t h (rw e j) u

pub perform-IsUnique : (web : Web) (c : Call) (t : Table) → IsUnique t → IsUnique (perform web c t)
perform-IsUnique web (creating now draws o) t u =
    create-IsUnique (create web now draws o t) (create-Effect web now draws o t) u
perform-IsUnique web (clicking c) t u = record_click-IsUnique c t u

perform_all-keeps :
    (web : Web) (cs : List Call) (t : Table) → IsUnique t → IsUnique (perform_all web cs t)
perform_all-keeps web [] t u = u
perform_all-keeps web (c ∷ cs) t u =
    perform_all-keeps web cs (perform web c t) (perform-IsUnique web c t u)

-- Whatever calls the store answers from an empty table on, in whatever order, no two rows of the
-- table have the same code, and no two the same idempotency key.
pub perform_all-IsUnique : (web : Web) (cs : List Call) → IsUnique (perform_all web cs [])
perform_all-IsUnique web cs = perform_all-keeps web cs [] tt
