-- ===== src/Linksvc/Api/Create.antt =====
-- `_create` of examples/linksvc/linksvc/api.py, with the reading of the body.
use minifleet.Prelude.{
  ℕ, String, Option, none, some, List, [], ◌∷◌, is_empty, ltb, eqb, if◌then◌else◌, ◌==◌, minus,
  sort_by, str_le, Dict, lookup, insert, foldl,
}
use minifleet.Model.{
  field_names, Float, le_float, Value, null, bool, number, text, object, Fields, get_field, bit,
}
use minifleet.Linksvc.Store.{Refusal, Result, ok, refused, Link, Order, Table, create}
use minifleet.Linksvc.Api.State.{
  ServiceState, Complaint, body_too_large, Base, public, of_host, no_base, rate_limit, link, Extra,
  plain, invalid_json, rejected, crashed, Decoded, not_utf8, not_json, json, Request, Moment, Http,
  reply, fail, count_bad, count_limited, count_created, Handled, refusal,
}
use minifleet.Linksvc.Limiter.{Limiter, allow, Answer, zero_float}

abbrev pub max_body_bytes : ℕ
max_body_bytes = 65536

abbrev pub known_fields : List String
known_fields = "url" ∷ "ttl_seconds" ∷ "alias" ∷ "idempotency_key" ∷ "code" ∷ []

abbrev pub names_flaw : Fields → Option Complaint
names_flaw fs =
    let unknown = sort_by str_le (minus (field_names fs) known_fields) in
    if is_empty unknown then none else some (Complaint.unknown_fields unknown)

abbrev pub positive_flaw : Float → Option Complaint
positive_flaw x = if le_float x zero_float then some Complaint.not_positive else none

abbrev pub ttl_flaw : Option Value → Option Complaint
ttl_flaw none = none
ttl_flaw (some null) = none
ttl_flaw (some (number x)) = positive_flaw x
ttl_flaw (some (bool b)) = positive_flaw (bit b)
ttl_flaw (some v) = some Complaint.no_number

abbrev pub key_flaw : Option Value → Option Complaint
key_flaw none = none
key_flaw (some null) = none
key_flaw (some (text s)) = none
key_flaw (some v) = some Complaint.no_text

abbrev pub or_else : Option Complaint → Option Complaint → Option Complaint
or_else none q = q
or_else (some c) q = some c

-- the first of the checks of the payload that fails
abbrev pub payload_flaw : Fields → Option Complaint
payload_flaw fs =
    or_else (names_flaw fs)
      (or_else (ttl_flaw (get_field "ttl_seconds" fs)) (key_flaw (get_field "idempotency_key" fs)))

-- JSON's null is Python's None.
abbrev pub given : Option Value → Option Value
given (some null) = none
given o = o

-- `payload.get("alias", payload.get("code"))`
abbrev pub alias_field : Fields → Option Value
alias_field fs = elim (get_field "alias" fs) [
  | none ↦ given (get_field "code" fs)
  | some v ↦ given (some v)
]

abbrev pub ttl_of : Option Value → Option Float
ttl_of (some (number x)) = some x
ttl_of (some (bool b)) = some (bit b)
ttl_of o = none

abbrev pub key_of : Option Value → Option String
key_of (some (text s)) = some s
key_of o = none

abbrev pub order_of : Fields → Order
order_of fs = record {
  url = given (get_field "url" fs);
  alias = alias_field fs;
  ttl = ttl_of (get_field "ttl_seconds" fs);
  key = key_of (get_field "idempotency_key" fs);
}

-- `{k.lower(): v for k, v in headers.items()}`
abbrev pub lowered : Http → Dict String → Dict String
lowered http hs = foldl (λ d e. insert (http.lower e.0) e.1 d) [] hs

abbrev pub host_base : Option String → Base
host_base none = no_base
host_base (some h) = if h == "" then no_base else of_host h

abbrev pub base_of : String → Option String → Base
base_of base host = if base == "" then host_base host else public base

-- what becomes of the result of the store
abbrev pub created : Base → Result Link × Table → ServiceState → Handled
created base (ok l, t) s = (reply 201 (link base l) plain, count_created (record s { store = t }))
created base (refused (Refusal.taken a), t) s =
    (fail 409 (refusal (Refusal.taken a)), record s { store = t })
created base (refused Refusal.url_netloc, t) s = (crashed, record s { store = t })
created base (refused e, t) s = (rejected e, record s { store = t })

module _ (http : Http) (m : Moment) (req : Request) where
  abbrev pub stored : Fields → ServiceState → Handled
  stored fs s =
      created (base_of s.public_base (lookup "host" (lowered http req.headers)))
        (create http.web m.now m.draws (order_of fs) s.store) s

  abbrev pub unless_flawed : Option Complaint → Handled → ServiceState → Handled
  unless_flawed none h s = h
  unless_flawed (some c) h s = (fail 400 c, count_bad s)

  abbrev pub decoded : Decoded → ServiceState → Handled
  decoded not_utf8 s = (crashed, s)
  decoded not_json s = (invalid_json, s)
  decoded (json (object fs)) s = unless_flawed (payload_flaw fs) (stored fs s) s
  decoded (json v) s = (rejected Refusal.body_form, s)

  abbrev pub read_body : ServiceState → Handled
  read_body s =
      if ltb max_body_bytes req.body_length
      then (fail 413 body_too_large, count_bad s)
      else if eqb req.body_length 0
      then (rejected Refusal.body_form, s)
      else decoded req.body s

  abbrev pub limited : Answer × Limiter → ServiceState → Handled
  limited (a, l) s =
      let s1 : ServiceState = record s { limiter = l } in
      if a.allowed then read_body s1 else (
        reply 429 (rate_limit a.retry_after) (Extra.retry_after a.retry_after),
        count_limited s1,
      )

  -- `_create`
  unfoldable pub create_link : ServiceState → Handled
  create_link s =
      let key = if req.remote == "" then "unknown" else req.remote in
      limited (allow http.arithmetic m.tick key s.limiter) s
