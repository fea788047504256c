-- ===== src/Linksvc/Api/Steps.antt =====
-- What a handler does to the counters, and what it keeps; the handler that creates a link.
use minifleet.Prelude.{
  ℕ, ◌+◌, String, Bool, true, false, ◌||◌, Option, none, some, List, ◌≡◌, refl, subst,
  if◌then◌else◌, eqb, ltb, lookup, ◌==◌,
}
use minifleet.Model.{ℤ, null, bool, number, text, array, object}
use minifleet.Model.{Float}
use minifleet.Linksvc.Store.{Order, record_click, Refusal, Result, ok, refused, Link, Table, create}
use minifleet.Linksvc.Limiter.{Limiter, allow}
use minifleet.Linksvc.Api.{
  Counters, ServiceState, Complaint, Base, Outcome, replied, Decoded, not_utf8, not_json, json,
  Request, Moment, Http, Handled, created, stored, unless_flawed, decoded, read_body, create_link,
  payload_flaw, max_body_bytes, order_of, lowered, base_of,
}

-- the counter of a status
abbrev pub count_status : ℕ → Counters → Counters
count_status status c =
    if eqb status 201
    then record c { links_created = c.links_created + 1 }
    else if eqb status 302
    then record c { redirects = c.redirects + 1 }
    else if eqb status 404
    then record c { not_found = c.not_found + 1 }
    else if eqb status 410
    then record c { expired = c.expired + 1 }
    else if eqb status 429
    then record c { rate_limited = c.rate_limited + 1 }
    else if eqb status 400 || eqb status 413
    then record c { bad_request = c.bad_request + 1 }
    else c

abbrev pub tally : Outcome → Counters → Counters
tally (replied r) c = count_status r.status c
tally o c = c

-- What the calls on the store and the limiter that a handler makes keep.
pub record IsClosed (http : Http) (P : Table → Limiter → Type 0) : Type 0 where
  pub clicking : (code : String) (t : Table) (l : Limiter) → P t l → P (record_click code t) l
  pub creating :
      (now : ℤ) (draws : List String) (o : Order) (t : Table) (l : Limiter)
      → P t l
      → P (create http.web now draws o t).1 l
  pub allowing :
      (now : Float) (key : String) (t : Table) (l : Limiter)
      → P t l
      → P t (allow http.arithmetic now key l).1

pub record IsStep (http : Http) (s : ServiceState) (h : Handled) : Type 1 where
  pub same : h.1.counters ≡ tally h.0 s.counters
  pub kept :
      (P : Table → Limiter → Type 0)
      → IsClosed http P
      → P s.store s.limiter
      → P h.1.store h.1.limiter

pub still :
    {http : Http} {s : ServiceState} {h : Handled}
    → h.1.counters ≡ tally h.0 s.counters
    → h.1.store ≡ s.store
    → h.1.limiter ≡ s.limiter
    → IsStep http s h
still same store limiter = record { same = same; kept = λ P c p. rw (store, limiter) p }

-- both branches of a test
pub either :
    {http : Http} {s : ServiceState} (b : Bool) {h k : Handled}
    → IsStep http s h
    → IsStep http s k
    → IsStep http s (if b then h else k)
either true t u = t
either false t u = u

-- The state behind a create, whose table is `t`.
made :
    {http : Http} (m : Moment) (o : Order) {s : ServiceState} {h : Handled} {r : Result Link}
    {t : Table}
    → h.1.counters ≡ tally h.0 s.counters
    → h.1.store ≡ t
    → h.1.limiter ≡ s.limiter
    → create http.web m.now m.draws o s.store ≡ (r, t)
    → IsStep http s h
made {http} m o {s} {h} {r} {t} same store limiter e = record {
  same = same;
  kept = λ P c p.
      rw (store, limiter)
        (subst (λ x. P x.1 s.limiter) e (c.creating m.now m.draws o s.store s.limiter p));
}

module _ (http : Http) (m : Moment) (o : Order) (s : ServiceState) where
  created-IsStep :
      (base : Base) (x : Result Link × Table)
      → create http.web m.now m.draws o s.store ≡ x
      → IsStep http s (created base x s)
  created-IsStep base (ok l, t) e = made m o refl refl refl e
  created-IsStep base (refused Refusal.url_type, t) e = made m o refl refl refl e
  created-IsStep base (refused Refusal.url_length, t) e = made m o refl refl refl e
  created-IsStep base (refused Refusal.url_netloc, t) e = made m o refl refl refl e
  created-IsStep base (refused Refusal.url_scheme, t) e = made m o refl refl refl e
  created-IsStep base (refused Refusal.url_host, t) e = made m o refl refl refl e
  created-IsStep base (refused Refusal.ttl_range, t) e = made m o refl refl refl e
  created-IsStep base (refused Refusal.alias_form, t) e = made m o refl refl refl e
  created-IsStep base (refused Refusal.key_empty, t) e = made m o refl refl refl e
  created-IsStep base (refused Refusal.no_code, t) e = made m o refl refl refl e
  created-IsStep base (refused Refusal.body_form, t) e = made m o refl refl refl e
  created-IsStep base (refused (Refusal.taken a), t) e = made m o refl refl refl e

module _ (http : Http) (m : Moment) (req : Request) where
  unless_flawed-IsStep :
      (o : Option Complaint) (h : Handled) (s : ServiceState)
      → IsStep http s h
      → IsStep http s (unless_flawed http m req o h s)
  unless_flawed-IsStep none h s t = t
  unless_flawed-IsStep (some c) h s t = still refl refl refl

  decoded-IsStep : (d : Decoded) (s : ServiceState) → IsStep http s (decoded http m req d s)
  decoded-IsStep not_utf8 s = still refl refl refl
  decoded-IsStep not_json s = still refl refl refl
  decoded-IsStep (json (object fs)) s =
      unless_flawed-IsStep (payload_flaw fs) (stored http m req fs s) s (
        created-IsStep http m (order_of fs) s
          (base_of s.public_base (lookup "host" (lowered http req.headers)))
          (create http.web m.now m.draws (order_of fs) s.store) refl)
  decoded-IsStep (json null) s = still refl refl refl
  decoded-IsStep (json (bool b)) s = still refl refl refl
  decoded-IsStep (json (number x)) s = still refl refl refl
  decoded-IsStep (json (text x)) s = still refl refl refl
  decoded-IsStep (json (array x)) s = still refl refl refl

  limited-IsStep :
      (now : Float) (key : String) (s : ServiceState) (h : Handled)
      → IsStep http (record s { limiter = (allow http.arithmetic now key s.limiter).1 }) h
      → IsStep http s h
  limited-IsStep now key s h t = record {
    same = t.same;
    kept = λ P c p. t.kept P c (c.allowing now key s.store s.limiter p);
  }

  pub create_link-IsStep : (s : ServiceState) → IsStep http s (create_link http m req s)
  unfolding create_link
  create_link-IsStep s =
      let key = if req.remote == "" then "unknown" else req.remote in
      let (a, l) = allow http.arithmetic m.tick key s.limiter in
      let s1 : ServiceState = record s { limiter = l } in
      either a.allowed
        (limited-IsStep m.tick key s (read_body http m req s1) (
          either (ltb max_body_bytes req.body_length) (still refl refl refl)
            (either (eqb req.body_length 0) (still refl refl refl) (decoded-IsStep req.body s1))))
        (record { same = refl; kept = λ P c p. c.allowing m.tick key s.store s.limiter p })
