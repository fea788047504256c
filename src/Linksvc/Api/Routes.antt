-- ===== src/Linksvc/Api/Routes.antt =====
-- Every route, and the whole of `handle`, as a step.
use minifleet.Prelude.{
  ℕ, String, ◌||◌, Option, none, some, List, [], ◌∷◌, refl, contains, Dict, lookup, trim, not, ◌&&◌,
  ◌==◌,
}
use minifleet.Model.{ℤ}
use minifleet.Linksvc.Store.{Link, Table, get, stats, expired}
use minifleet.Linksvc.Analytics.{top_links}
use minifleet.Linksvc.Api.{
  ServiceState, replied, invalid_json, rejected, crashed, Request, Moment, Http, allowed_methods,
  count_request, Handled, found, redirect, counted, show_stats, page_reply, top_page, raw_limit,
  limited_page, show_top, reads, route_one, route_segments, segments, route_parsed, route, caught,
  handle,
}
use minifleet.Linksvc.Api.Steps.{IsStep, still, either, create_link-IsStep}

module _ (http : Http) where
  found-IsStep :
      (m : Moment) (code : String) (o : Option Link) (s : ServiceState)
      → IsStep http s (found m code o s)
  found-IsStep m code none s = still refl refl refl
  found-IsStep m code (some l) s =
      either (expired m.now l) (still refl refl refl)
        (record { same = refl; kept = λ P c p. c.clicking code s.store s.limiter p })

  redirect-IsStep :
      (m : Moment) (code : String) (s : ServiceState) → IsStep http s (redirect m code s)
  unfolding redirect
  redirect-IsStep m code s = found-IsStep m code (get code s.store) s

  counted-IsStep : (o : Option (Link × ℕ)) (s : ServiceState) → IsStep http s (counted o s)
  counted-IsStep none s = still refl refl refl
  counted-IsStep (some (l, n)) s = still refl refl refl

  show_stats-IsStep : (code : String) (s : ServiceState) → IsStep http s (show_stats code s)
  unfolding show_stats
  show_stats-IsStep code s = counted-IsStep (stats code s.store) s

  page_reply-IsStep :
      (n : ℤ) (o : Option Table) (s : ServiceState) → IsStep http s (page_reply n o s)
  page_reply-IsStep n none s = still refl refl refl
  page_reply-IsStep n (some p) s = still refl refl refl

  top_page-IsStep : (o : Option ℤ) (s : ServiceState) → IsStep http s (top_page o s)
  top_page-IsStep none s = still refl refl refl
  top_page-IsStep (some n) s = page_reply-IsStep n (top_links n s.store) s

  limited_page-IsStep :
      (o : Option String) (s : ServiceState) → IsStep http s (limited_page http o s)
  limited_page-IsStep none s = still refl refl refl
  limited_page-IsStep (some raw) s =
      either (trim raw == "" || not (http.is_digit (trim raw))) (still refl refl refl)
        (top_page-IsStep (http.int_of (trim raw)) s)

  show_top-IsStep :
      (query : Dict (List String)) (s : ServiceState) → IsStep http s (show_top http query s)
  unfolding show_top
  show_top-IsStep query s = limited_page-IsStep (raw_limit (lookup "limit" query)) s

module _ (http : Http) (m : Moment) (req : Request) where
  route_one-IsStep : (a : String) (s : ServiceState) → IsStep http s (route_one http m req a s)
  route_one-IsStep a s = either (a == "healthz" && reads req.method) (still refl refl refl) (
      either (a == "readyz" && reads req.method) (still refl refl refl) (
        either (a == "metrics" && reads req.method) (still refl refl refl) (
          either (a == "links" && req.method == "POST") (create_link-IsStep http m req s)
            (either (reads req.method) (redirect-IsStep http m a s) (still refl refl refl)))))

  route_segments-IsStep :
      (query : String) (segs : List String) (s : ServiceState)
      → IsStep http s (route_segments http m req query segs s)
  route_segments-IsStep query [] s = still refl refl refl
  route_segments-IsStep query (a ∷ []) s = route_one-IsStep a s
  route_segments-IsStep query (a ∷ b ∷ []) s =
      either (a == "links" && b == "top" && reads req.method)
        (show_top-IsStep http (http.parse_qs query) s) (still refl refl refl)
  route_segments-IsStep query (a ∷ b ∷ c ∷ []) s =
      either (a == "links" && c == "stats" && reads req.method) (show_stats-IsStep http b s)
        (still refl refl refl)
  route_segments-IsStep query (a ∷ b ∷ c ∷ d ∷ segs) s = still refl refl refl

  route_parsed-IsStep :
      (o : Option (String × String)) (s : ServiceState)
      → IsStep http s (route_parsed http m req o s)
  route_parsed-IsStep none s = still refl refl refl
  route_parsed-IsStep (some (path, query)) s =
      route_segments-IsStep query (segments http m req path) s

  route-IsStep : (s : ServiceState) → IsStep http s (route http m req s)
  unfolding route
  route-IsStep s = route_parsed-IsStep (http.parse_path req.path) s

  caught-IsStep : (s : ServiceState) (h : Handled) → IsStep http s h → IsStep http s (caught h)
  caught-IsStep s (replied r, s1) t = t
  caught-IsStep s (invalid_json, s1) t = record { same = rw t.same refl; kept = t.kept }
  caught-IsStep s (rejected e, s1) t = record { same = rw t.same refl; kept = t.kept }
  caught-IsStep s (crashed, s1) t = t

  pub handle-IsStep :
      (s : ServiceState)
      → IsStep http (record s { counters = count_request s.counters }) (handle http m req s)
  unfolding handle
  handle-IsStep s =
      let s1 : ServiceState = record s { counters = count_request s.counters } in
      either (contains allowed_methods req.method)
        (caught-IsStep s1 (route http m req s1) (route-IsStep s1)) (still refl refl refl)
