-- ===== src/Scheduler/Queue.antt =====
-- backend/internal/scheduler/scheduler.go: which assets `RunCycle` analyses, and in which order. What the
-- repositories return, what the context says, and whether the semaphore is acquired are arguments.
use crypto_market_advisor.Base.{
  ℕ, suc, ◌+◌, ◌*◌, Bool, true, false, ◌&&◌, ◌||◌, if◌then◌else◌, Option, none, some, List, [], ◌∷◌,
  ◌++◌, ltb, ◌==◌,
}
use crypto_market_advisor.Base.Int.{pos, leb_ℤ}
use crypto_market_advisor.Domain.Timeframe.{Time, hour}
use crypto_market_advisor.Domain.Market.{Asset}
use crypto_market_advisor.Domain.Position.{Position}
use crypto_market_advisor.Domain.Recommendation.{Recommendation}
use crypto_market_advisor.Domain.RecommendationAction.{is_entry}
use crypto_market_advisor.Scheduler.Guard.{Scheduler, enter, leave}

-- `time.Since(rec.CreatedAt)` is compared with two hours; a missing entry of the map is the zero value,
-- whose id is the nil uuid.
unfoldable pub is_strong_signal : {D F : Type 0} → (now : Time) → Option (Recommendation D F) → Bool
unfolding is_entry
is_strong_signal now none = false
is_strong_signal now (some rec) =
    if rec.id == 0
    then false
    else if ltb (rec.created_at + 2 * hour) now
    then false
    else is_entry rec.action && leb_ℤ (pos 65) rec.confidence

-- `withPosition[id]`
unfoldable pub with_position : {D F : Type 0} → List (Position D F) → ℕ → Bool
with_position [] id = false
with_position (p ∷ ps) id = (p.asset_id == id) || with_position ps id

pub record Priorities : Type 0 where
  pub priority1 : List Asset
  pub priority2 : List Asset
  pub priority3 : List Asset

-- The switch of the loop, and the loop.
unfoldable pub place : (held strong : ℕ → Bool) → Asset → Priorities → Priorities
place held strong a q =
    if held a.id
    then record q { priority1 = q.priority1 ++ (a ∷ []) }
    else if strong a.id
    then record q { priority2 = q.priority2 ++ (a ∷ []) }
    else record q { priority3 = q.priority3 ++ (a ∷ []) }

unfoldable pub place_all : (held strong : ℕ → Bool) → List Asset → Priorities → Priorities
unfolding place
place_all held strong [] q = q
place_all held strong (a ∷ rest) q = place_all held strong rest (place held strong a q)

unfoldable pub in_order : Priorities → List Asset
in_order q = (q.priority1 ++ q.priority2) ++ q.priority3

-- `prioritise`, of the enabled assets, the open positions (`none`: the query failed), and the map of the
-- latest recommendations, as far as it was read. The clock is read once for all of them.
unfoldable pub prioritise :
    {D F : Type 0}
    → (now : Time) → Option (List Asset)
    → Option (List (Position D F))
    → (latest : ℕ → Option (Recommendation D F)) → Option (List Asset)
unfolding is_strong_signal with_position place_all in_order
prioritise now none positions latest = none
prioritise now (some assets) none latest = none
prioritise now (some assets) (some positions) latest = some (
    in_order (
      place_all (with_position positions) (λ id. is_strong_signal now (latest id)) assets
        (record { priority1 = []; priority2 = []; priority3 = [] })))

-- The loop of `RunCycle` from asset i on: `done i` is `ctx.Err() != nil` and `acquired i` the success of
-- `sem.Acquire` in its round. The result are the assets whose analysis is started.
unfoldable pub launched : (done acquired : ℕ → Bool) → ℕ → List Asset → List Asset
launched done acquired i [] = []
launched done acquired i (a ∷ rest) =
    let later = launched done acquired (suc i) rest in
    if done i then [] else if acquired i then a ∷ later else []

pub record CycleRun : Type 0 where
  pub scheduler : Scheduler
  pub analysed : List Asset
  -- the status "cycle finished" is written
  pub reported : Bool

-- What `RunCycle` does between its two sections under the lock, on what `prioritise` returned.
unfoldable pub cycle_body : (done acquired : ℕ → Bool) → Option (List Asset) → List Asset × Bool
unfolding launched
cycle_body done acquired none = ([], false)
cycle_body done acquired (some []) = ([], false)
cycle_body done acquired (some (a ∷ rest)) = (launched done acquired 0 (a ∷ rest), true)

-- `RunCycle`, a call that nothing interrupts; `ended` is the time at its end.
unfoldable pub run_cycle :
    (done acquired : ℕ → Bool)
    → (prioritised : Option (List Asset)) → (ended : Time) → Scheduler
    → CycleRun
unfolding enter leave cycle_body
run_cycle done acquired prioritised ended s = elim (enter s) [
  | none ↦ record { scheduler = s; analysed = []; reported = false }
  | some k ↦
      let (analysed, reported) = cycle_body done acquired prioritised in
      record { scheduler = leave ended k; analysed = analysed; reported = reported }
]
