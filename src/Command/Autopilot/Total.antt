-- ===== src/Command/Autopilot/Total.antt =====
-- `cmd_autopilot` of minifleet/cli.py always ends, within its bound of rounds.
use minifleet.Prelude.{ℕ, ◌≤◌, ◌≡◌, ◌⊎◌}
use minifleet.Scheduler.State.{Site, Fleet}
use minifleet.Command.{Crew}
use minifleet.Command.Autopilot.{Turn, halt, again, Flight, landed, exit_code}

-- A turn that leaves the loop adds at most one entry to the history.
abbrev IsShort : (s : Site) → Turn s → Type 0
IsShort s (halt g k x) = k ≤ 1
IsShort s (again g) = Unit

module _ (s : Site) (crew : Crew s) where
  -- what the command can leave: nothing done for the packet dispatcher, or a flight
  abbrev pub IsLanded : ℕ → Fleet s → ℕ → Fleet s → Type 0
  IsLanded max_rounds f code g =
      ((code ≡ 2) × (g ≡ f))
      ⊎ ((l : Flight s) × (code ≡ exit_code l) × (g ≡ landed l) × (l.rounds ≤ max_rounds))
