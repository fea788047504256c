-- ===== src/Deploy/TornDown.antt =====
-- `cmd_deploy` of minifleet/cli.py ends with the process stopped, and what its exit code says.
use minifleet.Prelude.{
  ℕ, suc, ◌≤◌, ◌<◌, String, ◌≡◌, ◌⊎◌, ◌↔◌, Bool, true, false, Option, none, some, starts_with,
}
use minifleet.Deploy.{
  Host, line, Awaited, silent, raised, announced, status_of, Probe, Soak, Report, Settings,
  Deployment, reported, crashed, deploy_code, soak, wait_ready, observe_if,
}
use minifleet.Deploy.Ends.{Ticks, IsAnswered, Responses}

-- The product announced itself, answered the probe, and the soak, if there was one, saw no failure.
abbrev pub IsHealthy : Report → Type 0
IsHealthy r =
    (r.ready ≡ true)
    × ((p : Probe) × (r.smoke ≡ some p)
        × (p.ok ≡ true)
        × ((r.soak ≡ none) ⊎ ((k : Soak) × (r.soak ≡ some k) × (0 < k.samples) × (k.failures ≡ 0))))

-- The probe is of a response to some request, and fine exactly when that is an answer.
abbrev pub IfProbed : (h : Host) → Option Probe → Type 0
IfProbed h none = Unit
IfProbed h (some p) =
    (url : String) × (w : h.World) × (p.status ≡ status_of (h.get url w).0)
    × ((p.ok ≡ true) ↔ IsAnswered (h.get url w).0)

abbrev pub IfSoaked : (h : Host) → Option Soak → Type 0
IfSoaked h none = Unit
IfSoaked h (some k) = Responses h k

-- a line of the output begins with the prefix
abbrev pub HasLine : (h : Host) → String → Type 0
HasLine h prefix =
    (n : ℕ) × (w : h.World) × (t : String) × ((h.next_line n w).0 ≡ line t)
    × (starts_with t prefix ≡ true)

abbrev pub IfReady : (h : Host) → String → Bool → Type 0
IfReady h prefix false = Unit
IfReady h prefix true = HasLine h prefix

-- The world is the one that `stop` left, the report says what was read and answered, and exit code 0
-- says that the product is healthy.
abbrev pub IsTornDown : (h : Host) → String → Deployment h.World → Type 0
IsTornDown h prefix (crashed last) = (w : h.World) × (last ≡ (h.stop w).1)
IsTornDown h prefix (reported r last) =
    (w : h.World) × (last ≡ (h.stop w).1)
    × (r.exit_code ≡ (h.stop w).0)
    × ((deploy_code r ≡ 0) ↔ IsHealthy r)
    × IfReady h prefix r.ready
    × IfProbed h r.smoke
    × IfSoaked h r.soak

module _ (h : Host) (prefix : String) where
  abbrev Told : Report × h.World → Type 0
  Told x = IsTornDown h prefix (reported x.0 x.1)

  -- silent, or a line with the prefix was read
  abbrev IfRead : Awaited → Type 0
  IfRead silent = Unit
  IfRead raised = Unit
  IfRead (announced port) = HasLine h prefix

  module _ (law : Ticks h) where
    abbrev Waited : ℕ → ℕ → h.World → Type 0
    Waited deadline fuel w =
        (r : Awaited) × (after : h.World) × (wait_ready h prefix deadline fuel w ≡ some (r, after))
        × IfRead r

    module _ (o : Settings) (pace : 0 < o.interval) (fuel : ℕ) (enough : o.seconds ≤ fuel) where
      abbrev Observed : Awaited × h.World → Type 0
      Observed r =
          (d : Deployment h.World) × (observe_if h o (suc fuel) r ≡ some d) × IsTornDown h prefix d
