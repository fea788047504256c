-- ===== src/Linksvc/Store/Checks.antt =====
-- What the store rejects: the checks of URLs, of aliases and of the other arguments of `create`, in
-- examples/linksvc/linksvc/storage.py.
use minifleet.Prelude.{
  ℕ, zero, suc, String, Bool, true, false, not, ◌&&◌, ◌||◌, Option, none, some, List, [], ◌∷◌, ◌==◌,
  length, leb, eqb, is_empty, codes, trim,
}
use minifleet.Model.{pos, Float, pos_inf, finite, le_float, eq_float, Value, text}

-- Every rejection that the store makes; `taken` is DuplicateAlias, and `url_netloc` the ValueError
-- of `urlparse`.
pub data Refusal : Type 0 where
  url_type url_length url_netloc url_scheme url_host ttl_range : Refusal
  alias_form key_empty no_code body_form : Refusal
  taken : String → Refusal

pub data Result {ℓ} (A : Type ℓ) : Type ℓ where
  ok : A → Result A
  refused : Refusal → Result A

infixl 5 ◌>>=◌ ◌>>◌
abbrev pub ◌>>=◌ {ℓ κ} : {A : Type ℓ} {B : Type κ} → Result A → (A → Result B) → Result B
ok a >>= f = f a
refused e >>= f = refused e

abbrev pub ◌>>◌ {ℓ} : {B : Type ℓ} → Result (Unit {0}) → Result B → Result B
m >> k = m >>= λ _. k

abbrev pub guard : Bool → Refusal → Result (Unit {0})
guard true e = ok tt
guard false e = refused e

-- What the store takes from its libraries; `parse` is the scheme and the netloc of `urlparse`.
pub record Web : Type 0 where
  pub parse : String → Option (String × String)
  pub add : Float → Float → Float

abbrev parsed : Option (String × String) → Result (String × String)
parsed none = refused Refusal.url_netloc
parsed (some p) = ok p

unfoldable pub normalize_url : Web → Option Value → Result String
normalize_url web (some (text s)) = do
  let url = trim s
  guard (not (url == "") && leb (length (codes url)) 2048) Refusal.url_length
  p ← parsed (web.parse url)
  guard (p.0 == "http" || p.0 == "https") Refusal.url_scheme
  guard (not (p.1 == "")) Refusal.url_host
  ok url
normalize_url web v = refused Refusal.url_type

-- `[A-Za-z0-9_-]`
abbrev pub is_alias_char : ℕ → Bool
is_alias_char c =
    leb b'A' c && leb c b'Z'
    || leb b'a' c && leb c b'z'
    || leb b'0' c && leb c b'9'
    || eqb c b'_'
    || eqb c b'-'

-- `{n}$` behind the first character: in Python `$` also matches before a line feed at the end
unfoldable pub alias_rest : ℕ → List ℕ → Bool
alias_rest n [] = true
alias_rest zero (c ∷ cs) = eqb c 10 && is_empty cs
alias_rest (suc n) (c ∷ cs) =
    let rest = alias_rest n cs in eqb c 10 && is_empty cs || is_alias_char c && rest

-- `ALIAS_RE.match(alias)`
unfoldable pub is_alias : List ℕ → Bool
unfolding alias_rest
is_alias [] = false
is_alias (c ∷ cs) = is_alias_char c && alias_rest 63 cs

unfoldable pub normalize_alias : Value → Result String
unfolding is_alias
normalize_alias (text s) = do guard (is_alias (codes s)) Refusal.alias_form; ok s
normalize_alias v = refused Refusal.alias_form

pub record Order : Type 0 where
  pub url : Option Value
  pub alias : Option Value
  pub ttl : Option Float
  pub key : Option String

-- an order that passed the checks
pub record Clean : Type 0 where
  pub url : String
  pub alias : Option String
  pub ttl : Option Float
  pub key : Option String

abbrev pub clean_alias : Option Value → Result (Option String)
clean_alias none = ok none
clean_alias (some v) = do ok (some (← normalize_alias v))

-- a comparison with a not-a-number is false
abbrev pub is_ttl : Option Float → Bool
is_ttl none = true
is_ttl (some t) = not (le_float t (finite (pos 0))) && eq_float t t && not (eq_float t pos_inf)

abbrev pub is_key : Option String → Bool
is_key none = true
is_key (some k) = not (k == "")

-- the checks of `create`, before the lock is taken
abbrev pub cleaned : Order → String → Option String → Result Clean
cleaned o url alias = do
  guard (is_ttl o.ttl) Refusal.ttl_range
  guard (is_key o.key) Refusal.key_empty
  ok (record { url = url; alias = alias; ttl = o.ttl; key = o.key })

abbrev pub with_alias : Order → String → Result Clean
with_alias o url = clean_alias o.alias >>= cleaned o url

unfoldable pub checked : Web → Order → Result Clean
checked web o = normalize_url web o.url >>= with_alias o
