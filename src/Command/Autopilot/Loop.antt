-- ===== src/Command/Autopilot/Loop.antt =====
-- What holds along the loop of `cmd_autopilot` of minifleet/cli.py, and of the run that it leaves.
use minifleet.Prelude.{
  ℕ, zero, suc, String, ◌≡◌, refl, ◌⊎◌, inl, inr, Option, none, some, lookup, Option-cases,
}
use minifleet.Model.{IntentSpec}
use minifleet.Scheduler.State.{Site, Fleet}
use minifleet.Workers.{
  Dispatcher, packet_dispatcher, command_dispatcher, http_dispatcher, make_dispatcher, name_of,
}
use minifleet.Command.{Crew, whole_limit}
use minifleet.Command.Autopilot.{
  Orders, Turn, halt, again, Flight, Arguments, is_overdue, work_round, round, rounds_from, landed,
  exit_code, orders_of, finish, fly, limited, pilot, autopilot,
}

-- `P` holds where the loop goes on, and `Q` where it is left.
module _ (s : Site) (P Q : Fleet s → Type 0) where
  abbrev pub IfTurn : Option (Turn s) → Type 0
  IfTurn none = Unit
  IfTurn (some (halt g k x)) = Q g
  IfTurn (some (again g)) = P g

  abbrev pub IfFlight : Option (Flight s) → Type 0
  IfFlight none = Unit
  IfFlight (some l) = Q l.fleet

  -- nothing done, or a flight that ends where `Q` holds, told with its exit code
  abbrev pub IfLanded : Option (ℕ × Fleet s) → Type 0
  IfLanded none = Unit
  IfLanded (some (code, g)) =
      ((code ≡ 2) × P g) ⊎ ((l : Flight s) × (code ≡ exit_code l) × (g ≡ landed l) × Q l.fleet)

  module _ (crew : Crew s) (work : (o : Orders) (f : Fleet s) → P f → IfTurn (work_round crew o f))
      (leave : (f : Fleet s) → P f → Q f) where
    round-IfTurn : (o : Orders) (f : Fleet s) → P f → IfTurn (round crew o f)
    unfolding round
    round-IfTurn o f h = elim (Option-cases (is_overdue crew o f)) [
      | inl e ↦ rw (round, e) (work o f h)
      | inr (budget, e) ↦ rw (round, e) (leave f h)
    ]

    rounds_from-IfFlight :
        (o : Orders) (left n : ℕ) (f : Fleet s) → P f → IfFlight (rounds_from crew o left n f)
    unfolding rounds_from
    rounds_from-IfFlight o zero n f h = leave f h
    rounds_from-IfFlight o (suc left) n f h =
        let rest = λ (g : Fleet s) (k : P g). rounds_from-IfFlight o left (suc n) g k in
        elim (Option-cases (round crew o f)) [
          | inl e ↦ rw (rounds_from, e) tt
          | inr (halt g k x, e) ↦ rw (rounds_from, e) (rw e at (round-IfTurn o f h))
          | inr (again g, e) ↦ rw (rounds_from, e) (rest g (rw e at (round-IfTurn o f h)))
        ]

    finish-IfLanded : (l : Option (Flight s)) → IfFlight l → IfLanded (finish l)
    finish-IfLanded none h = tt
    finish-IfLanded (some l) h = inr (l, refl, refl, h)

    fly-IfLanded :
        (name : String) (attempts rounds : ℕ) (spec : IntentSpec) (f : Fleet s)
        → P f
        → IfLanded (fly crew name attempts rounds spec f)
    unfolding fly
    fly-IfLanded name attempts rounds spec f h =
        let o = orders_of name attempts spec f in
        finish-IfLanded (rounds_from crew o rounds 0 f) (rounds_from-IfFlight o rounds 0 f h)

    limited-IfLanded :
        (args : Arguments) (d : Dispatcher) (spec : IntentSpec) (f : Fleet s)
        → P f
        → IfLanded (limited crew args d spec f)
    unfolding limited
    limited-IfLanded args d spec f h =
        elim (Option-cases (whole_limit args.max_attempts (lookup "max_attempts" spec.limits))) [
          | inl e ↦ rw (limited, e) tt
          | inr (attempts, e) ↦
              elim (Option-cases (whole_limit args.max_rounds (lookup "max_rounds" spec.limits))) [
                | inl e2 ↦ rw (limited, e, e2) tt
                | inr (rounds, e2) ↦
                    rw (limited, e, e2) (fly-IfLanded (name_of d) attempts rounds spec f h)
              ]
        ]

    pilot-IfLanded :
        (args : Arguments) (d : Dispatcher) (spec : IntentSpec) (f : Fleet s)
        → P f
        → IfLanded (pilot crew args d spec f)
    unfolding pilot
    pilot-IfLanded args packet_dispatcher spec f h = inl (refl, h)
    pilot-IfLanded args (command_dispatcher c) spec f h =
        limited-IfLanded args (command_dispatcher c) spec f h
    pilot-IfLanded args (http_dispatcher e) spec f h =
        limited-IfLanded args (http_dispatcher e) spec f h

    -- what `autopilot` leaves, from where `P` holds
    pub autopilot-IfLanded :
        (args : Arguments) (spec : IntentSpec) (f : Fleet s)
        → P f
        → IfLanded (autopilot crew args spec f)
    unfolding autopilot
    autopilot-IfLanded args spec f h =
        elim (Option-cases (make_dispatcher args.environ args.dispatcher)) [
          | inl e ↦ rw (autopilot, e) tt
          | inr (d, e) ↦ rw (autopilot, e) (pilot-IfLanded args d spec f h)
        ]
