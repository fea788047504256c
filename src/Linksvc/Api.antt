-- ===== src/Linksvc/Api.antt =====
-- `Api` of examples/linksvc/linksvc/api.py: the routes and the handlers.
--
-- A request is one step here. The code takes the locks of the limiter and of the store for single
-- calls and none for the counters, so what two requests do between these calls is not modelled.
mod State
mod Create
pub mod Steps
pub mod Routes
pub mod Redirect
pub mod Service
pub use State.*
unfoldable pub use Create.*
use minifleet.Prelude.{
  ℕ, ◌+◌, String, Bool, true, false, not, ◌&&◌, ◌||◌, Option, none, some, List, [], ◌∷◌, map,
  filter, length, is_empty, ltb, eqb, if◌then◌else◌, ◌==◌, contains, minus, sort_by, str_le, Dict,
  lookup, insert, foldl, split_slash, trim,
}
use minifleet.Model.{
  ℤ, Float, le_float, Value, null, bool, number, text, object, Fields, end, field, get_field, bit,
}
use minifleet.Linksvc.Store.{
  Refusal, Result, ok, refused, Link, Order, Table, create, record_click, get, stats, expired,
}
use minifleet.Linksvc.Analytics.{top_links}
use minifleet.Linksvc.Limiter.{Limiter, allow, Answer, zero_float}

abbrev pub found : Moment → String → Option Link → ServiceState → Handled
found m code none s = (fail 404 Complaint.unknown_code, count_missing s)
found m code (some l) s =
    if expired m.now l then (reply 410 (gone code) plain, count_expired s) else (
      reply 302 nothing (location l.url),
      count_redirect (record s { store = record_click code s.store }),
    )

-- `_redirect`
unfoldable pub redirect : Moment → String → ServiceState → Handled
redirect m code s = found m code (get code s.store) s

abbrev pub counted : Option (Link × ℕ) → ServiceState → Handled
counted none s = (fail 404 Complaint.unknown_code, count_missing s)
counted (some (l, n)) s = (reply 200 (clicks l n) plain, s)

-- `_stats`
unfoldable pub show_stats : String → ServiceState → Handled
show_stats code s = counted (stats code s.store) s

abbrev pub page_reply : ℤ → Option Table → ServiceState → Handled
page_reply n none s = (fail 400 Complaint.bad_limit, count_bad s)
page_reply n (some page) s = (reply 200 (top n page) plain, s)

abbrev pub top_page : Option ℤ → ServiceState → Handled
top_page none s = (crashed, s)
top_page (some n) s = page_reply n (top_links n s.store) s

-- `_parse_limit`, and the page
abbrev pub with_limit : Http → String → ServiceState → Handled
with_limit http raw s =
    let typed = trim raw in
    if typed == "" || not (http.is_digit typed)
    then (fail 400 Complaint.bad_limit, count_bad s)
    else top_page (http.int_of typed) s

-- `query.get("limit", [str(default_limit)])[0]`
abbrev pub raw_limit : Option (List String) → Option String
raw_limit none = some "10"
raw_limit (some []) = none
raw_limit (some (x ∷ xs)) = some x

abbrev pub limited_page : Http → Option String → ServiceState → Handled
limited_page http none s = (crashed, s)
limited_page http (some raw) s = with_limit http raw s

-- `_top`
unfoldable pub show_top : Http → Dict (List String) → ServiceState → Handled
show_top http query s = limited_page http (raw_limit (lookup "limit" query)) s

abbrev pub no_page : ServiceState → Handled
no_page s = (fail 404 Complaint.no_route, count_missing s)

-- `method in ("GET", "HEAD")`
abbrev pub reads : String → Bool
reads method = method == "GET" || method == "HEAD"

module _ (http : Http) (m : Moment) (req : Request) where
  -- a path of one segment
  abbrev pub route_one : String → ServiceState → Handled
  route_one a s =
      if a == "healthz" && reads req.method
      then (reply 200 (health m.uptime) plain, s)
      else if a == "readyz" && reads req.method
      then (reply 200 (ready (length s.store)) plain, s)
      else if a == "metrics" && reads req.method
      then (reply 200 (metrics s.counters) plain, s)
      else if a == "links" && req.method == "POST"
      then create_link http m req s
      else if reads req.method
      then redirect m a s
      else (reply 405 (error Complaint.bad_method) (allow_methods ("GET" ∷ [])), s)

  abbrev pub route_segments : String → List String → ServiceState → Handled
  route_segments query (a ∷ []) s = route_one a s
  route_segments query (a ∷ b ∷ []) s =
      if a == "links" && b == "top" && reads req.method
      then show_top http (http.parse_qs query) s
      else no_page s
  route_segments query (a ∷ b ∷ c ∷ []) s =
      if a == "links" && c == "stats" && reads req.method then show_stats b s else no_page s
  route_segments query segments s = no_page s

  abbrev pub segments : String → List String
  segments path = map http.unquote (filter (λ p. not (p == "")) (split_slash path))

  abbrev pub route_parsed : Option (String × String) → ServiceState → Handled
  route_parsed none s = (crashed, s)
  route_parsed (some (path, query)) s = route_segments query (segments path) s

  -- `_route`
  unfoldable pub route : ServiceState → Handled
  route s = route_parsed (http.parse_path req.path) s

-- the `except` clauses of `handle`
abbrev pub caught : Handled → Handled
caught (invalid_json, s) = (fail 400 Complaint.bad_json, count_bad s)
caught (rejected e, s) = (fail 400 (refusal e), count_bad s)
caught h = h

unfoldable pub handle : Http → Moment → Request → ServiceState → Handled
handle http m req s =
    let s1 : ServiceState = record s { counters = count_request s.counters } in
    if contains allowed_methods req.method
    then caught (route http m req s1)
    else (reply 405 (error Complaint.bad_method) (allow_methods allowed_methods), s1)
