-- ===== src/Deploy.antt =====
-- minifleet/deploy.py and `cmd_deploy` of minifleet/cli.py: a product is started, awaited, probed
-- and stopped.
--
-- The process, its output, the network and the clock are the interface `Host`; times are ticks of
-- one clock, which does not run backwards. The loops run on fuel, and `none` is no fuel left. The
-- rounded latencies, the texts of the report and its metrics are left out.
pub mod Ends
pub mod TornDown
use Prim.Native.String.{[] as no_chars, ◌∷◌ as and_char}
use minifleet.Prelude.{
  ℕ, zero, suc, ◌+◌, ◌-◌, String, Bool, true, false, not, ◌&&◌, Option, none, some, List, [], ◌∷◌,
  ◌++◌, ◌==◌, if◌then◌else◌, filter, length, is_empty, eqb, leb, ltb, trim, starts_with,
}
use minifleet.Model.{ℤ, pos, eq_ℤ, Value, object, null, get_field}

-- what `urlopen` gives: an answer, an HTTPError with its code, or another exception
pub data Response : Type 0 where
  answered refused : ℕ → Response
  dead : Response

-- what the queue of output lines gives within a time: a line, the end of the output, or nothing
pub data Line : Type 0 where
  line : String → Line
  closed empty : Line

-- `int` of a value: a number, an exception that the code catches, or an OverflowError, which it does
-- not
pub data Converted : Type 0 where
  converted : ℤ → Converted
  invalid overflow : Converted

-- what `wait_ready` comes to: no ready line, one with its port, or an exception
pub data Awaited : Type 0 where
  silent raised : Awaited
  announced : Option ℤ → Awaited

pub record Host : Type 1 where
  pub World : Type 0
  pub clock : World → ℕ
  pub get : String → World → Response × World
  pub sleep : ℕ → World → World
  pub next_line : ℕ → World → Line × World
  -- `Popen`, and whether it raised; `stop` gives the exit code
  pub start : World → Bool × World
  pub stop : World → ℤ × World
  -- `json.loads`, where `none` is an exception that the code catches
  pub loads : String → Option Value
  pub int_of : Value → Converted
  pub url_of : ℤ → String

pub record Probe : Type 0 where
  pub status : ℕ
  pub ok : Bool
  pub ticks : ℕ

abbrev pub is_success : ℕ → Bool
is_success status = leb 200 status && ltb status 300

abbrev pub status_of : Response → ℕ
status_of (answered n) = n
status_of (refused n) = n
status_of dead = 0

abbrev pub is_ok : Response → Bool
is_ok (answered n) = is_success n
is_ok (refused n) = false
is_ok dead = false

pub record Soak : Type 0 where
  pub samples : ℕ
  pub failures : ℕ
  pub timings : List ℕ

-- a soak is fine when it has samples and no failures
abbrev pub is_fine : Soak → Bool
is_fine k = ltb 0 k.samples && eqb k.failures 0

abbrev pub add_sample : Probe → Soak → Soak
add_sample p k = record {
  samples = suc k.samples;
  failures = if p.ok then k.failures else suc k.failures;
  timings = k.timings ++ p.ticks ∷ [];
}

abbrev pub min : ℕ → ℕ → ℕ
min a b = if leb a b then a else b

-- the line past its prefix
unfoldable pub behind_prefix : String → String → String
behind_prefix no_chars s = s
behind_prefix (and_char a p) no_chars = no_chars
behind_prefix (and_char a p) (and_char c s) = behind_prefix p s

pub record Report : Type 0 where
  pub ready : Bool
  pub smoke : Option Probe
  pub soak : Option Soak
  pub ok : Bool
  pub exit_code : ℤ

-- the arguments of the command, in ticks
pub record Settings : Type 0 where
  pub ready_prefix : String
  pub timeout : ℕ
  pub seconds : ℕ
  pub interval : ℕ

-- The command printed its report, or an exception of the start or of the port left it; the process
-- is stopped.
pub data Deployment (W : Type 0) : Type 0 where
  reported : Report → W → Deployment W
  crashed : W → Deployment W

-- `report["ok"]`
abbrev pub is_good : Option Probe → Option Soak → Bool
is_good none soaked = false
is_good (some p) none = p.ok
is_good (some p) (some k) = p.ok && is_fine k

-- `return 0 if report["ok"] else 1`
abbrev pub deploy_code : Report → ℕ
deploy_code r = if r.ok then 0 else 1

module _ (h : Host) where
  -- `_get`; `smoke` is one of it
  unfoldable pub probe_url : String → h.World → Probe × h.World
  probe_url url w =
      let (r, after) = h.get url w in
      (record { status = status_of r; ok = is_ok r; ticks = h.clock after - h.clock w }, after)

  -- the loop of `soak` over `seconds` ticks from `started` on
  unfoldable pub soak_from : String → ℕ → ℕ → ℕ → ℕ → Soak → h.World → Option (Soak × h.World)
  unfolding probe_url
  soak_from url seconds interval started zero k w = none
  soak_from url seconds interval started (suc fuel) k w =
      let (p, after) = probe_url url w in
      let run_for = h.clock after - started in
      let next = add_sample p k in
      let is_over = leb seconds run_for in
      elim is_over [
        | true ↦ some (next, after)
        | false ↦
            soak_from url seconds interval started fuel next
              (h.sleep (min interval (seconds - run_for)) after)
      ]

  unfoldable pub soak : String → ℕ → ℕ → ℕ → h.World → Option (Soak × h.World)
  unfolding soak_from
  soak url seconds interval fuel w =
      soak_from url seconds interval (h.clock w) fuel
        (record { samples = 0; failures = 0; timings = [] }) w

  -- `_parse_port`; `none` is an exception
  abbrev pub port_of : Converted → Option (Option ℤ)
  port_of (converted port) = some (some port)
  port_of invalid = some none
  port_of overflow = none

  abbrev pub port_field : Option Value → Option (Option ℤ)
  port_field (some (object fs)) = elim (get_field "port" fs) [
    | none ↦ some none
    | some null ↦ some none
    | some v ↦ port_of (h.int_of v)
  ]
  port_field v = some none

  unfoldable pub parse_port : String → String → Option (Option ℤ)
  unfolding behind_prefix trim
  parse_port prefix text =
      let payload = trim (behind_prefix prefix text) in
      if payload == "" then some none else port_field (h.loads payload)

  abbrev pub awaited : Option (Option ℤ) → Awaited
  awaited none = raised
  awaited (some port) = announced port

  -- the loop of `wait_ready`
  unfoldable pub wait_ready : String → ℕ → ℕ → h.World → Option (Awaited × h.World)
  unfolding parse_port
  wait_ready prefix deadline zero w = none
  wait_ready prefix deadline (suc fuel) w =
      let is_late = leb deadline (h.clock w) in
      elim is_late [
        | true ↦ some (silent, w)
        | false ↦
            let (l, after) = h.next_line (deadline - h.clock w) w in
            elim l [
              | empty ↦ some (silent, after)
              | closed ↦ some (silent, after)
              | line text ↦
                  let is_announced = starts_with text prefix in
                  elim is_announced [
                    | true ↦ some (awaited (parse_port prefix text), after)
                    | false ↦ wait_ready prefix deadline fuel after
                  ]
            ]
      ]

  -- the soak, if one is asked for
  abbrev pub soak_if : String → Settings → ℕ → h.World → Option (Option Soak × h.World)
  soak_if url o fuel w = elim (ltb 0 o.seconds) [
    | false ↦ some (none, w)
    | true ↦ elim (soak url o.seconds o.interval fuel w) [
      | none ↦ none
      | some (k, after) ↦ some (some k, after)
    ]
  ]

  -- the block `finally`
  abbrev pub torn_down : Bool → Option Probe → Option Soak → h.World → Report × h.World
  torn_down ready smoke soaked w =
      let (code, after) = h.stop w in
      (
        record {
          ready = ready;
          smoke = smoke;
          soak = soaked;
          ok = is_good smoke soaked;
          exit_code = code;
        },
        after,
      )

  -- the probes of a product that has announced a port
  unfoldable pub observe : String → Settings → ℕ → h.World → Option (Report × h.World)
  unfolding soak probe_url
  observe url o fuel w =
      let (p, after) = probe_url url w in
      elim (soak_if url o fuel after) [
        | none ↦ none
        | some (soaked, last) ↦ some (torn_down true (some p) soaked last)
      ]

  abbrev pub as_reported : Option (Report × h.World) → Option (Deployment h.World)
  as_reported none = none
  as_reported (some (r, w)) = some (reported r w)

  abbrev pub unprobed : Bool → h.World → Option (Deployment h.World)
  unprobed has_line w = as_reported (some (torn_down has_line none none w))

  abbrev pub observe_if : Settings → ℕ → Awaited × h.World → Option (Deployment h.World)
  observe_if o fuel (silent, w) = unprobed false w
  observe_if o fuel (raised, w) = some (crashed (h.stop w).1)
  observe_if o fuel (announced none, w) = unprobed true w
  observe_if o fuel (announced (some port), w) = elim (eq_ℤ port (pos 0)) [
    | true ↦ unprobed true w
    | false ↦ as_reported (observe (h.url_of port) o fuel w)
  ]

  -- `cmd_deploy`
  unfoldable pub deploy : Settings → ℕ → h.World → Option (Deployment h.World)
  unfolding wait_ready observe
  deploy o fuel w =
      let (has_started, after) = h.start w in
      elim has_started [
        | false ↦ some (crashed (h.stop after).1)
        | true ↦ elim (wait_ready o.ready_prefix (h.clock after + o.timeout) fuel after) [
          | none ↦ none
          | some result ↦ observe_if o fuel result
        ]
      ]
