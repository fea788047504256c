-- ===== src/Tests/Service.antt =====
-- A limiter with exact arithmetic, and a service that handles two requests.
use minifleet.Prelude.{◌+◌, ◌-◌, ◌*◌, String, true, some, List, [], ◌∷◌, ◌≡◌, refl, ap, arith}
use minifleet.Model.{
  pos, negsuc, Float, nan, neg_inf, pos_inf, finite, text, object, field, end, le_float,
}
use minifleet.Linksvc.Store.Unique.{IsUnique}
use minifleet.Linksvc.Limiter.{Arithmetic, Limiter, new_limiter, allow, remember}
use minifleet.Linksvc.Limiter.Bounds.{
  IsOrdered, IsBounded, LimiterCall, allowing, resetting, limit_all, limit_all-IsBounded,
}
use minifleet.Linksvc.Limiter.Burst.{IsExact, passed, allow-burst}
use minifleet.Linksvc.Api.{
  Http, Moment, Request, ServiceState, Counters, json, handle, redirect, count_request,
}
use minifleet.Linksvc.Api.Steps.{tally}
use minifleet.Linksvc.Api.Service.{handle_all, handle-counters, handle_all-IsSound}
use minifleet.Linksvc.Api.Redirect.{IsRedirect, redirect-IsRedirect}
use minifleet.Tests.Links.{web, first_table}

program : Unit {0}
unfolding new_limiter allow remember
program = tt

-- exact arithmetic on natural numbers
abbrev add_exact : Float → Float → Float
add_exact (finite (pos a)) (finite (pos b)) = finite (pos (a + b))
add_exact x y = x

abbrev sub_exact : Float → Float → Float
sub_exact (finite (pos a)) (finite (pos b)) = finite (pos (a - b))
sub_exact x y = x

abbrev mul_exact : Float → Float → Float
mul_exact (finite (pos a)) (finite (pos b)) = finite (pos (a * b))
mul_exact x y = x

abbrev exact : Arithmetic
exact = record {
  add = add_exact;
  sub = sub_exact;
  mul = mul_exact;
  div = λ a b. a;
  of_int = λ n. finite (pos n);
}

exact-sub_le :
    (t : Float)
    → le_float (finite (pos 1)) t ≡ true
    → le_float (sub_exact t (finite (pos 1))) t ≡ true
exact-sub_le nan h = cc
exact-sub_le neg_inf h = cc
exact-sub_le pos_inf h = refl
exact-sub_le (finite (pos a)) h = ground arith
exact-sub_le (finite (negsuc a)) h = cc

exact-IsOrdered : IsOrdered exact
exact-IsOrdered = record { number = λ n. ground arith; sub_le = exact-sub_le }

abbrev limiter : Limiter
limiter = record { rate = finite (pos 2); burst = finite (pos 3); max_keys = 1; buckets = [] }

limiter-new : new_limiter exact (finite (pos 2)) 3 1 ≡ some limiter
unfolding program
limiter-new = refl

abbrev limiter_calls : List LimiterCall
limiter_calls =
    allowing (finite (pos 1)) "a" ∷ allowing (finite (pos 1)) "b" ∷ resetting (some "b") ∷ []

limit_all-IsBounded_example : IsBounded (limit_all exact limiter_calls limiter)
limit_all-IsBounded_example =
    limit_all-IsBounded exact exact-IsOrdered (finite (pos 2)) 3 1 limiter limiter-new limiter_calls

abbrev after : Limiter
after = (allow exact (finite (pos 1)) "a" limiter).1

abbrev key_a : String
key_a = "a"

abbrev key_b : String
key_b = "b"

exact-IsExact : IsExact exact (finite (pos 2)) (finite (pos 7)) 3
exact-IsExact = record {
  one_le = λ n h. ground arith;
  one_gt = refl;
  lt = λ n h. ground arith;
  pred = λ n h. ap (λ k. finite (pos k)) (omega arith);
  no_time = λ n h. ap (λ k. finite (pos k)) (omega arith);
}

allow-burst_example : passed exact (finite (pos 7)) "a" 5 limiter ≡ 3
allow-burst_example =
    allow-burst exact (finite (pos 2)) (finite (pos 7)) 3 exact-IsExact "a" limiter (ground arith)
      refl refl refl 5

abbrev http : Http
http = record {
  web = web;
  arithmetic = exact;
  parse_path = λ p. some (p, "");
  unquote = λ p. p;
  parse_qs = λ q. [];
  lower = λ h. h;
  is_digit = λ s. true;
  int_of = λ s. some (pos 10);
}

abbrev moment : Moment
moment = record { now = pos 5; tick = finite (pos 7); uptime = finite (pos 1); draws = [] }

abbrev post : Request
post = record {
  method = "POST";
  path = "/links";
  body_length = 20;
  body = json (object (field "url" (text "https://a.example") (field "alias" (text "cat") end)));
  headers = [];
  remote = "a";
}

abbrev visit : Request
visit = record {
  method = "GET";
  path = "/cat";
  body_length = 0;
  body = json (object end);
  headers = [];
  remote = "a";
}

abbrev no_counts : Counters
no_counts = record {
  links_created = 0;
  redirects = 0;
  rate_limited = 0;
  not_found = 0;
  expired = 0;
  bad_request = 0;
  requests = 0;
}

abbrev service : ServiceState
service = record { store = []; limiter = limiter; counters = no_counts; public_base = "" }

abbrev requests : List (Moment × Request)
requests = (moment, post) ∷ (moment, visit) ∷ []

handle-counters_example :
    (handle http moment post service).1.counters
    ≡ tally (handle http moment post service).0 (count_request no_counts)
handle-counters_example = handle-counters http moment post service

handle_all-IsSound_example :
    IsUnique (handle_all http requests service).store
    × IsBounded (handle_all http requests service).limiter
handle_all-IsSound_example =
    handle_all-IsSound http exact-IsOrdered (finite (pos 2)) 3 1 limiter limiter-new no_counts ""
      requests

redirect-IsRedirect_example :
    IsRedirect moment "cat"
      (record service { store = first_table })
      (redirect moment "cat" (record service { store = first_table }))
redirect-IsRedirect_example =
    redirect-IsRedirect moment "cat" (record service { store = first_table })
