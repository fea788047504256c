-- ===== src/Deploy/Ends.antt =====
-- The loops of minifleet/deploy.py end, and what the exit code of a deployment says.
use minifleet.Prelude.{
  ℕ, zero, suc, ◌+◌, ◌-◌, ◌≤◌, ◌<◌, String, ◌≡◌, refl, sym, ◌∙◌, ap, ◌↔◌, inl, inr, true, false,
  some, List, [], ◌∷◌, All, length, length-append, leb, Bool-cases, if-both, arith,
}
use minifleet.Deploy.{
  Host, Response, answered, refused, dead, line, is_ok, Soak, add_sample, min, probe_url, soak_from,
}

-- The clock does not run backwards over a request, and a sleep takes at least the time it is given;
-- the product writes finitely many lines, and `lines` bounds those that are still to be read.
pub record Ticks (h : Host) : Type 0 where
  pub lines : h.World → ℕ
  pub get_later : (url : String) (w : h.World) → h.clock w ≤ h.clock (h.get url w).1
  pub sleep_later : (n : ℕ) (w : h.World) → h.clock w + n ≤ h.clock (h.sleep n w)
  pub line_fewer :
      (n : ℕ) (w : h.World) (t : String)
      → (h.next_line n w).0 ≡ line t
      → lines (h.next_line n w).1 < lines w

-- an answer with a status of success
abbrev pub IsAnswered : Response → Type 0
IsAnswered r = (n : ℕ) × (r ≡ answered n) × (200 ≤ n) × (n < 300)

pub is_ok-IsAnswered : (r : Response) → (is_ok r ≡ true) ↔ IsAnswered r
is_ok-IsAnswered (answered n) = (
  λ e. (n, refl, ground (arith, e), ground (arith, e)),
  λ (m, e, low, high). let same : n ≡ m = cc in ground (arith, same, low, high),
)
is_ok-IsAnswered (refused n) =
    (λ e. absurd (ground (arith, e)), λ (m, e, low, high). ground (arith, e))
is_ok-IsAnswered dead = (λ e. absurd (ground (arith, e)), λ (m, e, low, high). ground (arith, e))

module _ (h : Host) where
  -- responses of the network, as many as samples; no sample failed exactly when each is an answer
  abbrev pub Responses : Soak → Type 0
  Responses k =
      (rs : List Response) × (length rs ≡ k.samples)
      × All (λ r. (url : String) × (w : h.World) × ((h.get url w).0 ≡ r)) rs
      × ((k.failures ≡ 0) ↔ All IsAnswered rs)

  -- As many timings as samples, and the failures are those of the responses.
  abbrev pub IsCounted : Soak → Type 0
  IsCounted k = (length k.timings ≡ k.samples) × Responses k

  add_sample-IsCounted :
      (url : String) (w : h.World) (k : Soak)
      → IsCounted k
      → IsCounted (add_sample (probe_url h url w).0 k)
  unfolding probe_url
  add_sample-IsCounted url w k (n, (rs, l, seen, (zero→all, all→zero))) =
      let r = (h.get url w).0 in
      let p = (probe_url h url w).0 in
      let next = add_sample p k in
      let (ok→answered, answered→ok) = is_ok-IsAnswered r in
      (
        omega (arith, n, length-append k.timings (p.ticks ∷ [])),
        (
          r ∷ rs,
          ap suc l,
          ((url, w, refl), seen),
          elim (Bool-cases (is_ok r)) [
            | inl e ↦ (
              let same : next.failures ≡ k.failures = rw e refl in
                  λ z. (ok→answered e, zero→all (sym same ∙ z)),
              let same : next.failures ≡ k.failures = rw e refl in λ (a, b). same ∙ all→zero b,
            )
            | inr e ↦ (
              let more : next.failures ≡ suc k.failures = rw e refl in
                  λ z. absurd (ground (arith, more, z)),
              λ (a, b). let yes = answered→ok a in absurd (ground (arith, yes, e)),
            )
          ],
        ),
      )

module _ (h : Host) (law : Ticks h) where
  -- a turn that is not the last takes at least one tick
  turn_later :
      (url : String) (seconds interval started : ℕ) (w : h.World)
      → 0 < interval
      → leb seconds (h.clock (h.get url w).1 - started) ≡ false
      → let after = (h.get url w).1 in
        let rest = seconds - (h.clock after - started) in
        h.clock w < h.clock (h.sleep (min interval rest) after)
  turn_later url seconds interval started w pace e =
      let after = (h.get url w).1 in
      let rest = seconds - (h.clock after - started) in
      let later = law.get_later url w in
      let slept = law.sleep_later (min interval rest) after in
      let left : 0 < rest = ground arith in
      let step : 0 < min interval rest = if-both (λ x. 0 < x) (leb interval rest) pace left in
      omega (arith, later, slept, step)

  -- the ticks that are left are enough turns
  pub soak_from_total :
      (url : String) (seconds interval started : ℕ)
      → 0 < interval
      → (fuel : ℕ) (k : Soak) (w : h.World) → started + seconds ≤ h.clock w + fuel
      → IsCounted h k
      → (s : Soak) × (after : h.World) × (soak_from h url seconds interval started (suc fuel) k w
          ≡ some (s, after))
        × IsCounted h s
        × (k.samples < s.samples)
  unfolding soak_from probe_url
  soak_from_total url seconds interval started pace zero k w enough c =
      let (p, after) = probe_url h url w in
      let next = add_sample-IsCounted h url w k c in
      elim (Bool-cases (leb seconds (h.clock after - started))) [
        | inl e ↦ (add_sample p k, after, rw (soak_from, e) refl, next, omega arith)
        | inr e ↦ let later = law.get_later url w in absurd (ground (arith, later))
      ]
  soak_from_total url seconds interval started pace (suc fuel) k w enough c =
      let (p, after) = probe_url h url w in
      let next = add_sample-IsCounted h url w k c in
      elim (Bool-cases (leb seconds (h.clock after - started))) [
        | inl e ↦ (add_sample p k, after, rw (soak_from, e) refl, next, omega arith)
        | inr e ↦
            let later = turn_later url seconds interval started w pace e in
            let slept = h.sleep (min interval (seconds - (h.clock after - started))) after in
            let (s, last, done, counted, more) =
              soak_from_total url seconds interval started pace fuel (add_sample p k) slept
                (omega (arith, later)) next in
            (s, last, rw (soak_from, e) done, counted, omega (arith, more))
      ]
