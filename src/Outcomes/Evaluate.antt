-- ===== src/Outcomes/Evaluate.antt =====
-- backend/internal/recommendations/outcomes.go: `evaluateOne` and `EvaluateOutcomes`.
use crypto_market_advisor.Base.{
  ℕ, suc, ◌+◌, ◌*◌, Bool, true, false, not, ◌&&◌, if◌then◌else◌, Option, none, some, List, [], ◌∷◌,
  ltb, length, is_none,
}
use crypto_market_advisor.Numbers.Float.{Float, Conversion, int}
use crypto_market_advisor.Domain.Timeframe.{Time, minute, hour, Timeframe, tf1m, tf5m}
use crypto_market_advisor.Domain.Market.{Candle}
use crypto_market_advisor.Domain.Direction
use crypto_market_advisor.Domain.Direction.{Direction, long}
use crypto_market_advisor.Domain.RecommendationAction
use crypto_market_advisor.Domain.Recommendation.{Recommendation, Outcome}
use crypto_market_advisor.Domain.Kinds.{
  pending, tp_hit, sl_hit, ambiguous, neither, no_trade, TradeResult, win, loss, breakeven, unset,
}
use crypto_market_advisor.Outcomes.Hits.{HitResult, detect_hits}
use crypto_market_advisor.Outcomes.Prices.{price_after, excursions}

-- OutcomeHorizon
abbrev pub outcome_horizon : ℕ
outcome_horizon = 24 * hour

module _ {F : Type 0} where
  -- The outcome that `evaluateOne` starts from.
  abbrev pub blank : (id : ℕ) → (now : Time) → Outcome F
  blank id now = record {
    recommendation_id = id;
    evaluated_at = now;
    finalized = false;
    price_after_5m = none;
    price_after_15m = none;
    price_after_1h = none;
    price_after_4h = none;
    price_after_24h = none;
    mfe_pct = none;
    mae_pct = none;
    first_tp_hit_index = none;
    first_sl_hit_index = none;
    status = pending;
    is_ambiguous = false;
    ambiguity_reason = "";
    result = unset;
  }

  abbrev pub is_empty : List (Candle F) → Bool
  is_empty [] = true
  is_empty (x ∷ xs) = false

  abbrev pub pick_series : (fine coarse : List (Candle F)) → List (Candle F)
  pick_series fine coarse = if ltb (length coarse) (length fine) then fine else coarse

module _ {F : Type 0} ⦃f : Float F⦄ where
  -- Where neither level was reached: the price at the end against the reference.
  unfoldable pub end_result : Option F → F → Direction → TradeResult
  unfolding Direction.sign
  end_result none reference direction = unset
  end_result (some price) reference direction =
      let change =
        f.mul (f.div (f.sub price reference) reference) (f.of_int (Direction.sign direction)) in
      if f.lt (int 0) change then win else if f.lt change (int 0) then loss else breakeven

  -- The `switch` over the hits.
  unfoldable pub settled : Outcome F → HitResult → (old : Bool) → F → Direction → Outcome F
  unfolding end_result
  settled o hit old reference direction =
      let marked = record o {
        first_tp_hit_index = hit.tp_index;
        first_sl_hit_index = hit.sl_index;
        is_ambiguous = hit.is_ambiguous;
        ambiguity_reason = hit.reason;
      } in
      if hit.is_ambiguous
      then record marked { status = ambiguous; finalized = true }
      else if not (is_none hit.tp_index) && is_none hit.sl_index
      then record marked { status = tp_hit; result = win; finalized = true }
      else if not (is_none hit.sl_index)
      then record marked { status = sl_hit; result = loss; finalized = true }
      else if old
      then record marked {
        status = neither;
        finalized = true;
        result = end_result o.price_after_24h reference direction;
      }
      else marked

module _ {D F : Type 0} ⦃f : Float F⦄ ⦃c : Conversion D F⦄ where
  abbrev pub is_old : Recommendation D F → Time → Bool
  is_old rec now = ltb (rec.created_at + outcome_horizon) now

  -- The prices and the excursions.
  unfoldable pub measured : Outcome F → Recommendation D F → List (Candle F) → Direction → Outcome F
  unfolding price_after excursions
  measured o rec series direction =
      let (mfe, mae) = excursions series (c.to_float rec.reference_price) direction in
      record o {
        price_after_5m = price_after series rec.created_at (5 * minute);
        price_after_15m = price_after series rec.created_at (15 * minute);
        price_after_1h = price_after series rec.created_at hour;
        price_after_4h = price_after series rec.created_at (4 * hour);
        price_after_24h = price_after series rec.created_at (24 * hour);
        mfe_pct = some mfe;
        mae_pct = some mae;
      }

  -- The branches of `evaluateOne` where no candle was loaded and where some were.
  abbrev pub without_candles : (now : Time) → Recommendation D F → Option (Outcome F)
  without_candles now rec =
      if is_old rec now
      then some (record (blank rec.id now) {
        finalized = true;
        status = neither;
        ambiguity_reason = "no candles stored for the evaluation window";
      })
      else none

  unfoldable pub with_candles :
      (now : Time) → Recommendation D F → (series fine : List (Candle F)) → Option (Outcome F)
  unfolding measured settled detect_hits RecommendationAction.direction
  with_candles now rec series fine =
      let reference = c.to_float rec.reference_price in
      let (direction, is_entry) = RecommendationAction.direction rec.action in
      if f.le reference (int 0)
      then none
      else if not is_entry
      then some (record (measured (blank rec.id now) rec series long) {
        status = no_trade;
        finalized = is_old rec now;
      })
      else some (
          settled (measured (blank rec.id now) rec series direction)
            (detect_hits rec direction series fine) (is_old rec now) reference direction)

  -- `evaluateOne` with the two series that it loads; `none` is its nil outcome.
  unfoldable pub evaluate_one :
      (now : Time) → Recommendation D F → (fine coarse : List (Candle F)) → Option (Outcome F)
  unfolding with_candles
  evaluate_one now rec fine coarse =
      let series = pick_series fine coarse in
      if is_empty series then without_candles now rec else with_candles now rec series fine

  -- `EvaluateOutcomes` over the pending recommendations: `read` loads a series, `none` on an error, and
  -- `stores` says whether an outcome could be written. The result has the count and what was written.
  unfoldable pub evaluate_outcomes :
      (read : Recommendation D F → Timeframe → Option (List (Candle F)))
      → (stores : Outcome F → Bool) → (now : Time) → List (Recommendation D F)
      → ℕ × List (Outcome F)
  unfolding evaluate_one
  evaluate_outcomes read stores now [] = (0, [])
  evaluate_outcomes read stores now (rec ∷ recs) =
      let rest = evaluate_outcomes read stores now recs in
      elim (read rec tf1m) [
        | none ↦ rest
        | some fine ↦ elim (read rec tf5m) [
          | none ↦ rest
          | some coarse ↦ elim (evaluate_one now rec fine coarse) [
            | none ↦ rest
            | some o ↦ if stores o then (suc rest.0, o ∷ rest.1) else rest
          ]
        ]
      ]
