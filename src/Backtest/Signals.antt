-- ===== src/Backtest/Signals.antt =====
-- backend/internal/backtesting/engine.go: `technicalSignal`, `randomEntrySignal` and `llmSignal`. The
-- verdict of the strategies, the analysis that gives the average range (ATR), and the validated answer of
-- the model are arguments.
use crypto_market_advisor.Base.{
  String, Bool, true, false, not, ◌&&◌, if◌then◌else◌, Option, none, some, List, [], ◌∷◌, ltb,
  length,
}
use crypto_market_advisor.Base.Int.{ℤ, pos, ltb_ℤ}
use crypto_market_advisor.Numbers.Decimal.{Decimal, is_zero}
use crypto_market_advisor.Numbers.Float.{Float, Conversion, int}
use crypto_market_advisor.Domain.Direction
use crypto_market_advisor.Domain.Direction.{Direction, long, short}
use crypto_market_advisor.Domain.RecommendationAction
use crypto_market_advisor.Domain.RecommendationAction.{RecommendationAction, open_long, open_short}
use crypto_market_advisor.Domain.RiskLevel
use crypto_market_advisor.Domain.RiskLevel.{RiskLevel}
use crypto_market_advisor.Domain.Market.{Candle}
use crypto_market_advisor.Domain.Plan.{PriceTarget}
use crypto_market_advisor.Risk.Input.{RiskConfig, FeatureSnapshot}
use crypto_market_advisor.Backtest.Params.{BacktestParams, SignalResult}
use crypto_market_advisor.Backtest.Levels.{sign_of}
use crypto_market_advisor.Backtest.State.{DataQuality}
use crypto_market_advisor.Backtest.Entries.{RiskRequest, atr_plan, requires_atr, risk_plan}
use crypto_market_advisor.Backtest.Loop.{SignalDecision, min_candles}

-- What `strategies.Evaluate` decided, as far as it is read.
pub record PolicyDecision : Type 0 where
  pub is_entry : Bool
  pub reason : String
  pub confidence : ℤ
  pub direction : Direction

-- `llm.Validated`, as far as it is read.
pub record Validated (D F : Type 0) : Type 0 where
  pub action : RecommendationAction
  pub confidence : ℤ
  pub risk_level : RiskLevel
  pub allocation_pct : D
  pub leverage : ℤ
  pub take_profit : List (PriceTarget F)
  pub stop_loss : List (PriceTarget F)

-- What `llm.Service.Analyze` returns: an error, or a result with the validated answer, if it is one, and
-- whether it came from the cache.
pub data Answer (D F : Type 0) : Type 0 where
  unreachable : Answer D F
  answered : (cached : Bool) → (validated : Option (Validated D F)) → Answer D F

module _ {D F : Type 0} ⦃d : Decimal D⦄ ⦃f : Float F⦄ ⦃c : Conversion D F⦄ (cfg : RiskConfig D F)
    (params : BacktestParams D F) where
  abbrev pub atr_or_zero : Option F → F
  atr_or_zero none = int 0
  atr_or_zero (some atr) = atr

  abbrev pub target : (price close_pct : F) → PriceTarget F
  target price close_pct = record { price = price; close_pct = close_pct; reason = "" }

  -- A signal with the leverage and the allocation that the risk engine allows.
  unfoldable pub sized : RiskRequest D F → FeatureSnapshot F → SignalResult D F → SignalResult D F
  unfolding risk_plan
  sized req snapshot signal =
      let (leverage, allocation) = risk_plan cfg req snapshot params in
      record signal { leverage = leverage; allocation_pct = allocation }

  -- The plan of a deterministic trade in average ranges, from the close of the candle.
  abbrev pub plan_stops : Direction → (atr entry : F) → List (PriceTarget F)
  plan_stops direction atr entry =
      target (f.sub entry (f.mul (f.mul (sign_of direction) (atr_plan params).stop) atr)) (int 100)
      ∷ []

  abbrev pub plan_targets : Direction → (atr entry : F) → (both : Bool) → List (PriceTarget F)
  plan_targets direction atr entry both =
      let plan = atr_plan params in
      let at = λ (multiple : F). f.add entry (f.mul (f.mul (sign_of direction) multiple) atr) in
      let first = target (at plan.target1) plan.target1_close in
      let second = target (at plan.target2) (f.sub (int 100) plan.target1_close) in
      if not both && f.le (int 100) plan.target1_close then first ∷ [] else first ∷ second ∷ []

  unfoldable pub plan_request : Direction → (confidence : ℤ) → (atr entry : F) → RiskRequest D F
  unfolding atr_plan Direction.sign RiskLevel.of_string
  plan_request direction confidence atr entry = record {
    direction = direction;
    confidence = confidence;
    leverage = pos 0;
    risk_level = RiskLevel.of_string "";
    price = entry;
    stops = plan_stops direction atr entry;
    atr = atr;
    allocation = params.allocation_pct;
  }

  unfoldable pub plan_levels :
      Direction → (confidence : ℤ) → (atr entry : F) → (both : Bool) → SignalResult D F
  unfolding atr_plan Direction.sign
  plan_levels direction confidence atr entry both = record {
    direction = direction;
    reference = entry;
    confidence = confidence;
    leverage = pos 0;
    allocation_pct = params.allocation_pct;
    take_profit = plan_targets direction atr entry both;
    stop_loss = plan_stops direction atr entry;
    atr = atr;
  }

  unfoldable pub plan_signal :
      Direction
      → (confidence : ℤ) → (atr entry : F) → (both : Bool) → FeatureSnapshot F
      → SignalResult D F
  unfolding sized plan_request plan_levels
  plan_signal direction confidence atr entry both snapshot =
      sized (plan_request direction confidence atr entry) snapshot
        (plan_levels direction confidence atr entry both)

  unfoldable pub technical_signal :
      PolicyDecision
      → (atr : Option F) → FeatureSnapshot F
      → (last : Candle F) → Option (SignalResult D F) × String
  unfolding plan_signal
  technical_signal decision atr snapshot last =
      if not decision.is_entry
      then (none, decision.reason)
      else if ltb_ℤ decision.confidence params.min_confidence
      then (none, "below_min_confidence")
      else if f.le (atr_or_zero atr) (int 0)
      then (none, "no_atr")
      else (
        some (
            plan_signal decision.direction decision.confidence (atr_or_zero atr) last.close false
              snapshot),
        decision.reason,
      )

  -- `randomEntrySignal`, of the visible candles of the run, the range that their analysis finds, and the
  -- snapshot: always a long, of confidence 70. Its levels are computed without the sign, which is 1.
  unfoldable pub random_entry_signal :
      (candles : List (Candle F))
      → (atr : Option F) → FeatureSnapshot F
      → (current : Candle F) → Option (SignalResult D F)
  unfolding plan_signal
  random_entry_signal candles atr snapshot current =
      if ltb (length candles) min_candles
      then none
      else if f.le (atr_or_zero atr) (int 0)
      then none
      else some (plan_signal long (pos 70) (atr_or_zero atr) current.close true snapshot)

  -- The allocation of a validated answer, or else that of the run.
  abbrev pub answer_allocation : Validated D F → D
  answer_allocation v = if is_zero v.allocation_pct then params.allocation_pct else v.allocation_pct

  unfoldable pub answer_request : Validated D F → (atr : F) → (last : Candle F) → RiskRequest D F
  unfolding RecommendationAction.direction
  answer_request v atr last = record {
    direction = (RecommendationAction.direction v.action).0;
    confidence = v.confidence;
    leverage = v.leverage;
    risk_level = v.risk_level;
    price = last.close;
    stops = v.stop_loss;
    atr = atr;
    allocation = answer_allocation v;
  }

  unfoldable pub answer_levels : Validated D F → (atr : F) → (last : Candle F) → SignalResult D F
  unfolding RecommendationAction.direction
  answer_levels v atr last = record {
    direction = (RecommendationAction.direction v.action).0;
    reference = last.close;
    confidence = v.confidence;
    leverage = pos 0;
    allocation_pct = answer_allocation v;
    take_profit = v.take_profit;
    stop_loss = v.stop_loss;
    atr = atr;
  }

  -- The signal of a validated answer.
  unfoldable pub answer_signal :
      Validated D F → (atr : F) → FeatureSnapshot F → (last : Candle F) → SignalResult D F
  unfolding sized answer_request answer_levels
  answer_signal v atr snapshot last =
      sized (answer_request v atr last) snapshot (answer_levels v atr last)

  -- The decision on a validated answer, by what it is refused for.
  unfoldable pub judge :
      Option (Validated D F)
      → (atr : F) → FeatureSnapshot F
      → (last : Candle F) → Option (SignalResult D F) × String
  unfolding answer_signal RecommendationAction.is_entry requires_atr
  judge none atr snapshot last = (none, "llm_rejected")
  judge (some v) atr snapshot last =
      if not (RecommendationAction.is_entry v.action)
      then (none, "llm_no_entry")
      else if ltb_ℤ v.confidence params.min_confidence
      then (none, "below_min_confidence")
      else if f.le atr (int 0) && requires_atr params
      then (none, "no_atr")
      else (some (answer_signal v atr snapshot last), "entry")

  -- `llmSignal` with a model that is enabled, and the quality that `signal` adds.
  unfoldable pub llm_signal :
      Answer D F
      → (atr : Option F) → FeatureSnapshot F
      → (last : Candle F) → DataQuality
      → SignalDecision D F
  unfolding judge
  llm_signal unreachable atr snapshot last quality = record {
    signal = none;
    reason = "llm_failed";
    quality = quality;
    inference_cost = 1;
    cache_hit = 0;
    failed = true;
  }
  llm_signal (answered cached validated) atr snapshot last quality =
      let (signal, reason) = judge validated (atr_or_zero atr) snapshot last in
      record {
        signal = signal;
        reason = reason;
        quality = quality;
        inference_cost = if cached then 0 else 1;
        cache_hit = if cached then 1 else 0;
        failed = false;
      }
