-- ===== src/Linksvc/Store.antt =====
-- `LinkStore` of examples/linksvc/linksvc/storage.py: one table, and the SQL statements on it.
--
-- A time stamp is the finite double that the clock gives, in quanta. The addition of doubles, what
-- `urlparse` gives, and the codes that `secrets` draws are arguments.
mod Checks
pub mod Effect
pub mod Unique
pub mod Idempotent
pub mod Refines
pub mod Lookup
pub mod Alias
unfoldable pub use Checks.*
use minifleet.Prelude.{
  ℕ, zero, suc, ◌+◌, String, Bool, true, false, not, ◌&&◌, ◌||◌, Option, none, some, List, [], ◌∷◌,
  ◌++◌, map, ◌==◌, if◌then◌else◌, length, leb, ltb, eqb, find, any, take, is_empty, codes, trim,
}
use minifleet.Model.{ℤ, pos, Float, pos_inf, finite, le_float, eq_float, Value, text}

pub record Link : Type 0 where
  pub code : String
  pub url : String
  pub created_at : ℤ
  pub expires_at : Option Float

-- `Link.expired`
abbrev pub expired : ℤ → Link → Bool
expired now l = elim l.expires_at [ none ↦ false | some e ↦ le_float e (finite now) ]

pub record LinkRow : Type 0 where
  pub code : String
  pub url : String
  pub created_at : ℤ
  pub expires_at : Option Float
  pub clicks : ℕ
  pub key : Option String

-- `_link`
abbrev pub link_of : LinkRow → Link
link_of r = record {
  code = r.code;
  url = r.url;
  created_at = r.created_at;
  expires_at = r.expires_at;
}

abbrev pub Table : Type 0
Table = List LinkRow

abbrev pub has_code : String → LinkRow → Bool
has_code c r = r.code == c

-- a NULL is equal to nothing
abbrev pub same_key : Option String → Option String → Bool
same_key (some k) (some j) = j == k
same_key _ _ = false

abbrev pub has_key : Option String → LinkRow → Bool
has_key k r = same_key k r.key

-- SELECT ... WHERE code = ?
abbrev pub by_code : String → Table → Option LinkRow
by_code c t = find (has_code c) t

-- SELECT ... WHERE idempotency_key = ?
abbrev pub by_key : Option String → Table → Option LinkRow
by_key k t = find (has_key k) t

-- `none` is the IntegrityError of the primary key or of the UNIQUE column.
abbrev pub insert_row : LinkRow → Table → Option Table
insert_row r t =
    if any (has_code r.code) t || any (has_key r.key) t then none else some (t ++ r ∷ [])

abbrev pub is_free : Table → String → Bool
is_free t c = not (any (has_code c) t)

-- `_new_code`, with the codes that are drawn
abbrev pub new_code : List String → Table → Result String
new_code draws t = elim (find (is_free t) (take 32 draws)) [
  | none ↦ refused Refusal.no_code
  | some c ↦ ok c
]

-- `clean_alias or self._new_code()`
abbrev pub target_code : Option String → List String → Table → Result String
target_code (some alias) draws t = ok alias
target_code none draws t = new_code draws t

abbrev pub expiry : Web → ℤ → Option Float → Option Float
expiry web now none = none
expiry web now (some ttl) = some (web.add (finite now) ttl)

abbrev pub fresh_row : Web → ℤ → Clean → String → LinkRow
fresh_row web now c code = record {
  code = code;
  url = c.url;
  created_at = now;
  expires_at = expiry web now c.ttl;
  clicks = 0;
  key = c.key;
}

-- the handler of the IntegrityError
abbrev pub conflict : String → Option LinkRow → Result Link
conflict code none = refused (Refusal.taken code)
conflict code (some r) = ok (link_of r)

abbrev pub inserted : LinkRow → Clean → Table → Option Table → Result Link × Table
inserted r c t none = (conflict r.code (by_key c.key t), t)
inserted r c t (some t') = (ok (link_of r), t')

abbrev pub insert_at : Web → ℤ → Clean → Table → Result String → Result Link × Table
insert_at web now c t (refused e) = (refused e, t)
insert_at web now c t (ok code) =
    let r = fresh_row web now c code in inserted r c t (insert_row r t)

abbrev pub unless_known : Option LinkRow → Table → Result Link × Table → Result Link × Table
unless_known none t rest = rest
unless_known (some r) t rest = (ok (link_of r), t)

-- what `create` does under the lock
unfoldable pub store : Web → ℤ → List String → Clean → Table → Result Link × Table
store web now draws c t =
    unless_known (by_key c.key t) t (insert_at web now c t (target_code c.alias draws t))

abbrev pub if_checked : Result Clean → (Clean → Result Link × Table) → Table → Result Link × Table
if_checked (ok c) f t = f c
if_checked (refused e) f t = (refused e, t)

unfoldable pub create : Web → ℤ → List String → Order → Table → Result Link × Table
create web now draws o t = if_checked (checked web o) (λ c. store web now draws c t) t

abbrev pub click : String → LinkRow → LinkRow
click c r = if r.code == c then record r { clicks = r.clicks + 1 } else r

-- UPDATE links SET clicks = clicks + 1 WHERE code = ?
unfoldable pub record_click : String → Table → Table
record_click c t = map (click c) t

-- a row of the table with its clicks
abbrev pub row_stats : Option LinkRow → Option (Link × ℕ)
row_stats none = none
row_stats (some r) = some (link_of r, r.clicks)

abbrev pub row_link : Option LinkRow → Option Link
row_link none = none
row_link (some r) = some (link_of r)

unfoldable pub stats : String → Table → Option (Link × ℕ)
stats c t = if c == "" then none else row_stats (by_code c t)

unfoldable pub get : String → Table → Option Link
get c t = if c == "" then none else row_link (by_code c t)

-- the calls that write the table, in the order in which they take the lock
pub data Call : Type 0 where
  creating : ℤ → List String → Order → Call
  clicking : String → Call

abbrev pub perform : Web → Call → Table → Table
perform web (creating now draws o) t = (create web now draws o t).1
perform web (clicking c) t = record_click c t

abbrev pub perform_all : Web → List Call → Table → Table
perform_all web [] t = t
perform_all web (c ∷ cs) t = perform_all web cs (perform web c t)
