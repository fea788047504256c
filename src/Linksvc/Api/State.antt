-- ===== src/Linksvc/Api/State.antt =====
-- The data of examples/linksvc/linksvc/api.py: requests, replies, and the state with its counters.
--
-- A reply keeps its status, its extra headers and what its JSON text is made of. `crashed` is an
-- exception that `handle` does not catch.
use minifleet.Prelude.{ℕ, ◌+◌, String, Bool, Option, List, [], ◌∷◌, Dict}
use minifleet.Model.{ℤ, Float, Value}
use minifleet.Linksvc.Store.{Refusal, Link, Web, Table}
use minifleet.Linksvc.Limiter.{Arithmetic, Limiter}

pub record Counters : Type 0 where
  pub links_created : ℕ
  pub redirects : ℕ
  pub rate_limited : ℕ
  pub not_found : ℕ
  pub expired : ℕ
  pub bad_request : ℕ
  pub requests : ℕ

pub record ServiceState : Type 0 where
  pub store : Table
  pub limiter : Limiter
  pub counters : Counters
  pub public_base : String

pub data Complaint : Type 0 where
  bad_method bad_json body_too_large no_number not_positive no_text : Complaint
  unknown_fields : List String → Complaint
  refusal : Refusal → Complaint
  bad_limit unknown_code no_route : Complaint

-- what a short URL stands behind
pub data Base : Type 0 where
  public : String → Base
  of_host : String → Base
  no_base : Base

pub data Payload : Type 0 where
  error : Complaint → Payload
  rate_limit : Float → Payload
  health : Float → Payload
  ready : ℕ → Payload
  metrics : Counters → Payload
  link : Base → Link → Payload
  gone : String → Payload
  clicks : Link → ℕ → Payload
  top : ℤ → Table → Payload
  nothing : Payload

pub data Extra : Type 0 where
  plain : Extra
  allow_methods : List String → Extra
  retry_after : Float → Extra
  location : String → Extra

pub record Reply : Type 0 where
  pub status : ℕ
  pub extra : Extra
  pub payload : Payload

pub data Outcome : Type 0 where
  replied : Reply → Outcome
  invalid_json : Outcome
  rejected : Refusal → Outcome
  crashed : Outcome

-- `body.decode("utf-8")` and `json.loads`
pub data Decoded : Type 0 where
  not_utf8 not_json : Decoded
  json : Value → Decoded

pub record Request : Type 0 where
  pub method : String
  pub path : String
  pub body_length : ℕ
  pub body : Decoded
  pub headers : Dict String
  pub remote : String

-- What a request meets: the wall clock, the monotonic clock, the uptime and the codes drawn.
pub record Moment : Type 0 where
  pub now : ℤ
  pub tick : Float
  pub uptime : Float
  pub draws : List String

-- What the surface takes from its libraries: `urlparse` (path and query), `unquote`, `parse_qs`,
-- `lower`, `isdigit` and `int`, whose `none` is the ValueError.
pub record Http : Type 0 where
  pub web : Web
  pub arithmetic : Arithmetic
  pub parse_path : String → Option (String × String)
  pub unquote : String → String
  pub parse_qs : String → Dict (List String)
  pub lower : String → String
  pub is_digit : String → Bool
  pub int_of : String → Option ℤ

abbrev pub allowed_methods : List String
allowed_methods = "GET" ∷ "POST" ∷ "HEAD" ∷ []

-- `self._json(status, payload, extra)`
abbrev pub reply : ℕ → Payload → Extra → Outcome
reply status payload extra = replied (record { status = status; extra = extra; payload = payload })

abbrev pub fail : ℕ → Complaint → Outcome
fail status c = reply status (error c) plain

abbrev pub count_request : Counters → Counters
count_request c = record c { requests = c.requests + 1 }

abbrev pub count_bad : ServiceState → ServiceState
count_bad s = record s { counters = record s.counters { bad_request = s.counters.bad_request + 1 } }

abbrev pub count_missing : ServiceState → ServiceState
count_missing s = record s { counters = record s.counters { not_found = s.counters.not_found + 1 } }

abbrev pub count_limited : ServiceState → ServiceState
count_limited s = record s {
  counters = record s.counters { rate_limited = s.counters.rate_limited + 1 };
}

abbrev pub count_expired : ServiceState → ServiceState
count_expired s = record s { counters = record s.counters { expired = s.counters.expired + 1 } }

abbrev pub count_redirect : ServiceState → ServiceState
count_redirect s = record s {
  counters = record s.counters { redirects = s.counters.redirects + 1 };
}

abbrev pub count_created : ServiceState → ServiceState
count_created s = record s {
  counters = record s.counters { links_created = s.counters.links_created + 1 };
}

abbrev pub Handled : Type 0
Handled = Outcome × ServiceState
