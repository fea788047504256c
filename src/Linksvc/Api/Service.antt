-- ===== src/Linksvc/Api/Service.antt =====
-- What the service keeps over any requests.
use minifleet.Prelude.{ℕ, String, some, List, [], ◌∷◌, ◌≡◌}
use minifleet.Model.{Float}
use minifleet.Linksvc.Store.{Table}
use minifleet.Linksvc.Store.Unique.{IsUnique, create-IsUnique, record_click-IsUnique}
use minifleet.Linksvc.Store.Effect.{create-Effect}
use minifleet.Linksvc.Limiter.{Limiter, new_limiter}
use minifleet.Linksvc.Limiter.Bounds.{IsOrdered, IsBounded, allow-IsBounded, new_limiter-IsBounded}
use minifleet.Linksvc.Api.{Http, Moment, Request, ServiceState, Counters, count_request, handle}
use minifleet.Linksvc.Api.Steps.{IsClosed, tally}
use minifleet.Linksvc.Api.Routes.{handle-IsStep}

-- Every request counts once as a request, and besides in exactly the counter of the status that it
-- is answered with: 201, 302, 404, 410, 429, and 400 or 413 as a bad request. Any other answer, and
-- an exception, count in none.
pub handle-counters :
    (http : Http) (m : Moment) (req : Request) (s : ServiceState)
    → (handle http m req s).1.counters ≡ tally (handle http m req s).0 (count_request s.counters)
handle-counters http m req s = (handle-IsStep http m req s).same

-- The requests in the order in which the service handles them.
abbrev pub handle_all : Http → List (Moment × Request) → ServiceState → ServiceState
handle_all http [] s = s
handle_all http ((m, req) ∷ rs) s = handle_all http rs (handle http m req s).1

abbrev Kept : Table → Limiter → Type 0
Kept t l = IsUnique t × IsBounded l

Kept-IsClosed : (http : Http) → IsOrdered http.arithmetic → IsClosed http Kept
Kept-IsClosed http laws = record {
  clicking = λ code t l (u, b). (record_click-IsUnique code t u, b);
  creating =
      λ now draws o t l (u, b). (create-IsUnique _ (create-Effect http.web now draws o t) u, b);
  allowing = λ now key t l (u, b). (u, allow-IsBounded http.arithmetic laws now key l b);
}

handle-Kept :
    (http : Http)
    → IsOrdered http.arithmetic
    → (m : Moment) (req : Request) (s : ServiceState) → Kept s.store s.limiter
    → Kept (handle http m req s).1.store (handle http m req s).1.limiter
handle-Kept http laws m req s k = (handle-IsStep http m req s).kept Kept (Kept-IsClosed http laws) k

handle_all-keeps :
    (http : Http)
    → IsOrdered http.arithmetic
    → (rs : List (Moment × Request)) (s : ServiceState) → Kept s.store s.limiter
    → Kept (handle_all http rs s).store (handle_all http rs s).limiter
handle_all-keeps http laws [] s k = k
handle_all-keeps http laws ((m, req) ∷ rs) s k =
    handle_all-keeps http laws rs (handle http m req s).1 (handle-Kept http laws m req s k)

-- A service that starts with an empty table and a new limiter keeps its promises whatever the
-- requests: no code and no idempotency key stands twice in the table, and the limiter keeps at
-- most `max_keys` buckets, one for each key, none above the burst. The arithmetic is one in which
-- an int gives a number, and taking one from a number that is at least one gives no larger one.
pub handle_all-IsSound :
    (http : Http)
    → IsOrdered http.arithmetic
    → (rate : Float) (burst max_keys : ℕ) (l : Limiter)
    → new_limiter http.arithmetic rate burst max_keys ≡ some l
    → (c : Counters) (base : String) (rs : List (Moment × Request))
    → let s : ServiceState =
        handle_all http rs (record { store = []; limiter = l; counters = c; public_base = base }) in
      IsUnique s.store × IsBounded s.limiter
handle_all-IsSound http laws rate burst max_keys l h c base rs =
    handle_all-keeps http laws rs _
      (tt, new_limiter-IsBounded http.arithmetic laws rate burst max_keys l h)
