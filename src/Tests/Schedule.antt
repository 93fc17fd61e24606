-- ===== src/Tests/Schedule.antt =====
-- A run of the scheduler, and the queue of a cycle.
use mathlib.Core.List.{Permᴰ}
use crypto_market_advisor.Base.{
  ℕ, ◌+◌, ◌*◌, ◌<◌, ◌≤◌, ◌≡◌, ◌≢◌, refl, false, Option, none, some, List, [], ◌∷◌, ◌++◌, arith,
  ◌==◌, ℕ_discrete, if◌then◌else◌,
}
use crypto_market_advisor.Base.Int.{ℤ, pos}
use crypto_market_advisor.Numbers.Fixed.{Hundredths}
use crypto_market_advisor.Domain.Timeframe.{hour}
use crypto_market_advisor.Domain.Market.{Asset}
use crypto_market_advisor.Domain.RecommendationAction.{is_entry}
use crypto_market_advisor.Domain.Recommendation.{Recommendation}
use crypto_market_advisor.Scheduler.Guard.{
  new_scheduler, enter, leave, request, set_next, find_manual, until_next_boundary,
}
use crypto_market_advisor.Scheduler.System
use crypto_market_advisor.Scheduler.System.{
  System, Event, Step, Run, began, ended, skipped, accepted, refused, planned, initial,
}
use crypto_market_advisor.Scheduler.Turns.{turns, IsTurnOf, run-IsTurnOf}
use crypto_market_advisor.Scheduler.Cooldown.{IsSpaced, run-IsSpaced}
use crypto_market_advisor.Scheduler.Boundary.{until_next_boundary_lem}
use crypto_market_advisor.Scheduler.Queue.{
  prioritise, run_cycle, with_position, is_strong_signal, place, place_all, in_order, cycle_body,
  launched,
}
use crypto_market_advisor.Scheduler.Order.{by_urgency, listed, prioritise_lem, run_cycle-IsReady}
use crypto_market_advisor.Tests.Data.{ten_units, advice}

-- A cycle begins, another is skipped, BTC is asked for at 100, at 130 and at 160, with a cooldown of 60.
abbrev events : List Event
events =
    accepted "BTC" 160
    ∷ ended 0
    ∷ refused "BTC" 130
    ∷ accepted "BTC" 100
    ∷ skipped 1
    ∷ began 0
    ∷ planned 300
    ∷ []

abbrev last_state : System
last_state = record {
  scheduler = record {
    last_manual = ("BTC", 160) ∷ ("BTC", 100) ∷ [];
    last_cycle = 150;
    next_cycle = 300;
    cycle_running = false;
  };
  calls =
      System.update (System.update (System.update initial.calls 0 System.inside) 1 System.after) 0
        System.after;
}

events_run : Run 60 events last_state
unfolding initial new_scheduler enter leave request set_next find_manual ℕ_discrete
events_run =
    Run.later
      (Run.later
        (Run.later
          (Run.later
            (Run.later (Run.later (Run.later Run.start (Step.plans 300)) (Step.begins 0 refl refl))
              (Step.skips 1 refl refl))
            (Step.accepts "BTC" 100 refl))
          (Step.refuses "BTC" 130 refl))
        (Step.ends 0 150 refl))
      (Step.accepts "BTC" 160 refl)

run-IsTurnOf_example :
    (holder : Option ℕ) × (turns events ≡ some holder) × IsTurnOf last_state holder
run-IsTurnOf_example = run-IsTurnOf 60 events last_state events_run

run-IsSpaced_example : IsSpaced 60 events
run-IsSpaced_example = run-IsSpaced 60 events last_state events_run

-- At 7:30 with an interval of five minutes.
until_next_boundary_example :
    (450 < 450 + until_next_boundary 450 (pos 300))
    × (450 + until_next_boundary 450 (pos 300) ≤ 3 * 300)
    × ((q : ℕ) × (450 + until_next_boundary 450 (pos 300) ≡ q * 300))
until_next_boundary_example = until_next_boundary_lem 450 300 3 (omega arith) (omega arith)

boundary-run : until_next_boundary 450 (pos 300) ≡ 150
unfolding until_next_boundary
boundary-run = refl

abbrev eth : Asset
eth = record { id = 8; symbol = "ETH" }

abbrev btc : Asset
btc = record { id = 7; symbol = "BTC" }

abbrev sol : Asset
sol = record { id = 9; symbol = "SOL" }

-- SOL is advised.
abbrev advised : ℕ → Option (Recommendation ℤ Hundredths)
advised id = if id == 9 then some advice else none

prioritise_lem_example :
    (prioritise hour (some (eth ∷ sol ∷ btc ∷ [])) (some (ten_units ∷ [])) advised
      ≡ some (
          by_urgency
            (with_position (ten_units ∷ []))
            (λ id. is_strong_signal hour (advised id))
            (eth ∷ sol ∷ btc ∷ [])))
    × Permᴰ
        (by_urgency
          (with_position (ten_units ∷ []))
          (λ id. is_strong_signal hour (advised id))
          (eth ∷ sol ∷ btc ∷ []))
        (eth ∷ sol ∷ btc ∷ [])
prioritise_lem_example = prioritise_lem hour (eth ∷ sol ∷ btc ∷ []) (ten_units ∷ []) advised

prioritise-run :
    prioritise hour (some (eth ∷ sol ∷ btc ∷ [])) (some (ten_units ∷ [])) advised
    ≡ some (btc ∷ sol ∷ eth ∷ [])
unfolding prioritise with_position is_strong_signal place_all place in_order is_entry
prioritise-run = refl

-- The second slot of the semaphore is refused.
run_cycle-IsReady_example :
    ((left : List Asset) × ((run_cycle
            (λ i. false)
            (λ i. i == 0)
            (some (btc ∷ sol ∷ []))
            hour
            new_scheduler).analysed
          ++ left
        ≡ listed (some (btc ∷ sol ∷ []))))
    × (enter
          (run_cycle
            (λ i. false)
            (λ i. i == 0)
            (some (btc ∷ sol ∷ []))
            hour
            new_scheduler).scheduler
        ≢ none)
    × ((run_cycle
          (λ i. false)
          (λ i. i == 0)
          (some (btc ∷ sol ∷ []))
          hour
          new_scheduler).scheduler.last_cycle
        ≡ hour)
unfolding new_scheduler
run_cycle-IsReady_example =
    run_cycle-IsReady (λ i. false) (λ i. i == 0) (some (btc ∷ sol ∷ [])) hour new_scheduler refl

run_cycle-run :
    (run_cycle (λ i. false) (λ i. i == 0) (some (btc ∷ sol ∷ [])) hour new_scheduler).analysed
    ≡ btc ∷ []
unfolding run_cycle enter leave new_scheduler cycle_body launched
run_cycle-run = refl
