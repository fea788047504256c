-- ===== src/Command/Autopilot.antt =====
-- `cmd_autopilot` of minifleet/cli.py: rounds of dispatch, ingest, integration, verification and
-- repair, until the run passes or nothing is left to do.
--
-- Of the history only its length is kept. `none` is an exception that ends the program.
pub mod Total
pub mod Loop
pub mod Sound
pub mod Green
use minifleet.Prelude.{
  ℕ, zero, suc, ◌+◌, String, Bool, true, false, not, ◌&&◌, Option, none, some, List, [], ◌∷◌, map,
  if◌then◌else◌, is_empty, lookup,
}
use minifleet.Model.{
  pos, Float, finite, eq_float, Exhaustion, wall_clock, dispatches, IntentSpec, Event,
}
use minifleet.Scheduler.State.{Site, Fleet, tell}
use minifleet.Scheduler.Wave.{dispatch, ready}
use minifleet.Scheduler.Repair.{repair_failed}
use minifleet.Scheduler.Integrate.{begin, conflicts_of, merge_waves, integrate, verify}
use minifleet.Workers.{
  Dispatcher, packet_dispatcher, command_dispatcher, http_dispatcher, name_of, make_dispatcher,
}
use minifleet.Command.{Crew, is_passed, whole_limit, dispatched, take_all, answered, take_answers}

-- what a run of the loop keeps fixed
pub record Orders : Type 0 where
  pub dispatcher : String
  pub spec : IntentSpec
  pub max_attempts : ℕ
  pub wall_budget : Option Float
  pub started : ℕ

-- The end of a round: the loop is left, with the entries that it adds to the history and the budget
-- that is exhausted, or goes on.
pub data Turn (s : Site) : Type 0 where
  halt : Fleet s → ℕ → Option Exhaustion → Turn s
  again : Fleet s → Turn s

pub record Flight (s : Site) : Type 0 where
  pub fleet : Fleet s
  pub rounds : ℕ
  pub exhausted : Option Exhaustion

-- the arguments of the command
pub record Arguments : Type 0 where
  pub environ : String → Option String
  pub dispatcher : String
  pub max_attempts : ℕ
  pub max_rounds : ℕ

abbrev pub is_exhausted : Option Exhaustion → Bool
is_exhausted none = false
is_exhausted (some x) = true

module _ {s : Site} where
  -- no error in the `try` of `integrate`
  abbrev pub is_merged_cleanly : Fleet s → Bool
  is_merged_cleanly f =
      elim (merge_waves (s.checkout f.lab.world f.run.integration_branch) f).error [
        | none ↦ true
        | some e ↦ false
      ]

  -- the result of `integrate` has the status "ok"
  unfoldable pub integrates : Fleet s → Bool
  unfolding integrate
  integrates f = is_empty (conflicts_of (begin f)) && is_merged_cleanly (begin f)

  unfoldable pub repair_round : ℕ → Fleet s → Turn s
  unfolding repair_failed
  repair_round n f =
      let g = (repair_failed n f).fleet in
      if is_empty (ready g.design.tasks) then halt g 1 none else again g

  unfoldable pub verify_round : ℕ → Fleet s → Turn s
  unfolding verify repair_round
  verify_round n f =
      let g = verify n f in if is_passed g.run.status then halt g 1 none else repair_round n g

  unfoldable pub integrate_round : ℕ → Fleet s → Turn s
  unfolding integrates verify_round
  integrate_round n f =
      if integrates f then verify_round n (integrate f) else halt (integrate f) 1 none

  module _ (crew : Crew s) (o : Orders) where
    -- `if wall_budget and time.time() - started > wall_budget`
    abbrev pub is_overdue : Fleet s → Option Float
    is_overdue f = elim o.wall_budget [
      | none ↦ none
      | some budget ↦
          if not (eq_float budget (finite (pos 0)))
            && crew.is_late budget o.started (s.clock f.lab.world)
          then some budget
          else none
    ]

    abbrev pub after_results : Option (Fleet s) → Option (Turn s)
    after_results none = none
    after_results (some f) = some (integrate_round o.max_attempts f)

    -- a round from its dispatch on
    unfoldable pub work_round : Fleet s → Option (Turn s)
    unfolding dispatched dispatch take_all answered integrate_round
    work_round f =
        let ids = dispatched o.spec none f in
        let g = dispatch o.dispatcher o.spec none f in
        if is_empty ids && not (is_empty (ready g.design.tasks))
        then some (halt g 0 (some dispatches))
        else after_results (take_answers (answered crew g.lab.world ids) g)

    unfoldable pub round : Fleet s → Option (Turn s)
    unfolding work_round
    round f = elim (is_overdue f) [
      | some budget ↦ some (halt f 0 (some (wall_clock budget)))
      | none ↦ work_round f
    ]

    -- the rounds that are left, and the entries of the history so far
    unfoldable pub rounds_from : ℕ → ℕ → Fleet s → Option (Flight s)
    unfolding round
    rounds_from zero n f = some (record { fleet = f; rounds = n; exhausted = none })
    rounds_from (suc left) n f = elim (round f) [
      | none ↦ none
      | some (halt g k x) ↦ some (record { fleet = g; rounds = n + k; exhausted = x })
      | some (again g) ↦ rounds_from left (suc n) g
    ]

  abbrev pub landed : Flight s → Fleet s
  landed l =
      tell (Event.autopilot_finished l.fleet.run.status l.fleet.run.verdict l.rounds l.exhausted)
        l.fleet

  abbrev pub exit_code : Flight s → ℕ
  exit_code l =
      if is_passed l.fleet.run.status then 0 else if is_exhausted l.exhausted then 3 else 1

  abbrev pub finish : Option (Flight s) → Option (ℕ × Fleet s)
  finish none = none
  finish (some l) = some (exit_code l, landed l)

  abbrev pub orders_of : String → ℕ → IntentSpec → Fleet s → Orders
  orders_of dispatcher max_attempts spec f = record {
    dispatcher = dispatcher;
    spec = spec;
    max_attempts = max_attempts;
    wall_budget = lookup "max_wall_seconds" spec.limits;
    started = s.clock f.lab.world;
  }

  -- the loop, and its end
  unfoldable pub fly : Crew s → String → ℕ → ℕ → IntentSpec → Fleet s → Option (ℕ × Fleet s)
  unfolding rounds_from
  fly crew dispatcher max_attempts max_rounds spec f =
      finish (rounds_from crew (orders_of dispatcher max_attempts spec f) max_rounds 0 f)

  -- the limits of the intent, or else those of the command line
  unfoldable pub limited :
      Crew s → Arguments → Dispatcher → IntentSpec → Fleet s → Option (ℕ × Fleet s)
  unfolding fly
  limited crew args d spec f =
      elim (whole_limit args.max_attempts (lookup "max_attempts" spec.limits)) [
        | none ↦ none
        | some attempts ↦ elim (whole_limit args.max_rounds (lookup "max_rounds" spec.limits)) [
          | none ↦ none
          | some rounds ↦ fly crew (name_of d) attempts rounds spec f
        ]
      ]

  -- the command past the choice of its dispatcher
  unfoldable pub pilot :
      Crew s → Arguments → Dispatcher → IntentSpec → Fleet s → Option (ℕ × Fleet s)
  unfolding limited
  pilot crew args packet_dispatcher spec f = some (2, f)
  pilot crew args d spec f = limited crew args d spec f

  -- the exit code and the run that `cmd_autopilot` leaves
  unfoldable pub autopilot : Crew s → Arguments → IntentSpec → Fleet s → Option (ℕ × Fleet s)
  unfolding pilot make_dispatcher
  autopilot crew args spec f = elim (make_dispatcher args.environ args.dispatcher) [
    | none ↦ none
    | some d ↦ pilot crew args d spec f
  ]
