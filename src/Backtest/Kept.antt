-- ===== src/Backtest/Kept.antt =====
-- backend/internal/backtesting/engine.go: what every exit and every settlement of funding keeps is kept by
-- a whole candle.
use crypto_market_advisor.Base.{
  ℕ, zero, suc, ◌-◌, ◌*◌, ◌/◌, String, ◌≡◌, sym, subst, Bool, true, false, not, ◌&&◌, if◌then◌else◌,
  if_elim, ltb, Option, none, some, List, [], ◌∷◌, arith,
}
use crypto_market_advisor.Numbers.Decimal.{Decimal, nought, greater_than, is_zero}
use crypto_market_advisor.Numbers.Float.{Float, Conversion, int}
use crypto_market_advisor.Domain.Timeframe.{Time, hour}
use crypto_market_advisor.Domain.FeeType.{FeeType, maker, taker}
use crypto_market_advisor.Domain.Market.{Candle}
use crypto_market_advisor.Domain.Plan.{PriceTarget}
use crypto_market_advisor.Backtest.Params.{BacktestParams, OpenTrade}
use crypto_market_advisor.Backtest.Levels.{
  trail_stop, price_touched, any_target_touched, stop_fill, stop_precedes, liquidation_fill,
  liquidation_price,
}
use crypto_market_advisor.Backtest.State.{SimState}
use crypto_market_advisor.Backtest.Exits.{
  execute_exit, execute_levels, execute_touched_targets, settle_funding, funding_rounds,
  apply_funding, force_close,
}
use crypto_market_advisor.Backtest.Update.{
  Updated, mark_excursions, liquidate, stop_out, take, settle_levels, after_levels, settle_candle,
  update_open_trade,
}

-- The amounts of an open trade.
pub record Purse (D : Type 0) : Type 0 where
  pub gross : D
  pub fees : D
  pub funding : D
  pub original : D
  pub remaining : D
  pub exited : D

module _ {D F : Type 0} where
  abbrev pub purse : OpenTrade D F → Purse D
  purse o = record {
    gross = o.gross_pnl;
    fees = o.fees;
    funding = o.funding;
    original = o.original_qty;
    remaining = o.remaining_qty;
    exited = o.exited_qty;
  }

module _ {D F : Type 0} ⦃f : Float F⦄ where
  pub purse-trail_stop :
      (o : OpenTrade D F) (candle : Candle F) → purse (trail_stop o candle) ≡ purse o
  unfolding trail_stop
  purse-trail_stop o candle = ground arith

-- What holds of the trade and of the cash that a function returns.
module _ {D F : Type 0} (Q : Purse D → D → Type 0) where
  pub record After (r : OpenTrade D F × SimState D F) : Type 0 where
    pub holds : Q (purse (r.0)) (r.1.cash)

  record AfterLevels (r : OpenTrade D F × SimState D F × List (PriceTarget F)) : Type 0 where
    pub holds : Q (purse (r.0)) (r.1.cash)

  pub record AfterUpdate (u : Updated D F) : Type 0 where
    pub holds : Q (purse u.trade) u.state.cash

module _ {D F : Type 0} ⦃d : Decimal D⦄ ⦃f : Float F⦄ ⦃c : Conversion D F⦄ (candle : Candle F)
    (params : BacktestParams D F) (funding : ℕ → Option F) (Q : Purse D → D → Type 0)
    (exit_keeps : (price pct : F) (at : Time) (fee_type : FeeType) (reason : String)
        (o : OpenTrade D F) (s : SimState D F)
      → Q (purse o) s.cash
      → After Q (execute_exit price pct at params fee_type reason o s))
    (funding_keeps : (o : OpenTrade D F) (s : SimState D F)
      → Q (purse o) s.cash
      → After Q (settle_funding candle params funding o s)) where
  rounds_keep :
      (n : ℕ) (o : OpenTrade D F) (s : SimState D F)
      → Q (purse o) s.cash
      → After Q (funding_rounds n candle params funding o s)
  unfolding funding_rounds
  rounds_keep zero o s h = record { holds = h }
  rounds_keep (suc n) o s h =
      if_elim (After Q) (ltb candle.close_time o.next_funding_at) (record { holds = h })
        (rounds_keep n _ _ (funding_keeps o s h).holds)

  pub apply_keeps :
      (o : OpenTrade D F) (s : SimState D F)
      → Q (purse o) s.cash
      → After Q (apply_funding candle params funding o s)
  unfolding apply_funding
  apply_keeps o s h = rounds_keep (suc ((candle.close_time - o.next_funding_at) / (8 * hour))) o s h

  levels_keep :
      (take_profit : Bool) (reason : String) (levels : List (PriceTarget F)) (o : OpenTrade D F)
      (s : SimState D F)
      → Q (purse o) s.cash
      → AfterLevels Q (execute_levels candle take_profit params reason levels o s)
  unfolding execute_levels
  levels_keep take_profit reason [] o s h = record { holds = h }
  levels_keep take_profit reason (level ∷ levels) o s h =
      if_elim (AfterLevels Q) (not (price_touched candle level.price o.trade.direction take_profit))
        (record { holds = (levels_keep take_profit reason levels o s h).holds })
        (if_elim (AfterLevels Q)
          (is_zero
            (execute_exit fill close_pct candle.close_time params fee_type reason o
              s).0.remaining_qty)
          (record { holds = exited.holds })
          (levels_keep take_profit reason levels _ _ exited.holds))
    where
      close_pct : F
      close_pct = if f.le level.close_pct (int 0) then int 100 else level.close_pct

      fill : F
      fill = if take_profit then level.price else stop_fill level.price candle o.trade.direction

      fee_type : FeeType
      fee_type = if take_profit then maker else taker

      exited : After Q (execute_exit fill close_pct candle.close_time params fee_type reason o s)
      exited = exit_keeps fill close_pct candle.close_time fee_type reason o s h

  liquidate_keeps :
      (price : F) (o : OpenTrade D F) (s : SimState D F)
      → Q (purse o) s.cash
      → AfterUpdate Q (liquidate candle params price o s)
  unfolding liquidate
  liquidate_keeps price o s h = record {
    holds =
        (exit_keeps (liquidation_fill o candle price) (int 100) candle.close_time taker
          "liquidation" o s h).holds;
  }

  stop_out_keeps :
      (reason : String) (o : OpenTrade D F) (s : SimState D F)
      → Q (purse o) s.cash
      → AfterUpdate Q (stop_out candle params reason o s)
  unfolding stop_out execute_touched_targets
  stop_out_keeps reason o s h = record { holds = (levels_keep false reason _ o s h).holds }

  take_keeps :
      (o : OpenTrade D F) (s : SimState D F)
      → Q (purse o) s.cash
      → AfterUpdate Q (take candle params o s)
  unfolding take execute_touched_targets
  take_keeps o s h = record {
    holds =
        if_elim (λ (x : OpenTrade D F). Q (purse x) (r.1.cash))
          (params.break_even_after_tp
            && greater_than r.0.remaining_qty nought
            && not r.0.break_even)
          taken.holds taken.holds;
  }
    where
      r : OpenTrade D F × SimState D F × List (PriceTarget F)
      r = execute_touched_targets candle o.take_profit true params "take_profit" o s

      taken :
          AfterLevels Q (execute_touched_targets candle o.take_profit true params "take_profit" o s)
      taken = levels_keep true "take_profit" _ o s h

  pub settle_levels_keeps :
      (o : OpenTrade D F) (s : SimState D F)
      → Q (purse o) s.cash
      → AfterUpdate Q (settle_levels candle params o s)
  unfolding settle_levels
  settle_levels_keeps o s h = if_elim (AfterUpdate Q) (tp && sl) (stop_out_keeps _ o s h) (
      if_elim (AfterUpdate Q) sl (stop_out_keeps _ o s h)
        (if_elim (AfterUpdate Q) tp (take_keeps o s h) (record { holds = h })))
    where
      tp : Bool
      tp = any_target_touched candle o.take_profit o.trade.direction true

      sl : Bool
      sl = any_target_touched candle o.stop_loss o.trade.direction false

  after_levels_keeps :
      (liquidated : Bool) (price : F) (u : Updated D F)
      → AfterUpdate Q u
      → AfterUpdate Q (after_levels candle params liquidated price u)
  unfolding after_levels
  after_levels_keeps liquidated price u h =
      if_elim (AfterUpdate Q) (is_zero u.trade.remaining_qty) h (
        if_elim (AfterUpdate Q) liquidated (liquidate_keeps price _ u.state trailed)
          (record { holds = trailed }))
    where
      trailed : Q (purse (trail_stop u.trade candle)) u.state.cash
      trailed = subst (λ p. Q p u.state.cash) (sym (purse-trail_stop u.trade candle)) h.holds

  settle_candle_keeps :
      (price : Option F) (o : OpenTrade D F) (s : SimState D F)
      → Q (purse o) s.cash
      → AfterUpdate Q (settle_candle candle params price o s)
  unfolding settle_candle
  settle_candle_keeps none o s h =
      after_levels_keeps false (int 0) (settle_levels candle params o s) (settle_levels_keeps o s h)
  settle_candle_keeps (some price) o s h =
      if_elim (AfterUpdate Q)
        (price_touched candle price o.trade.direction false && not (stop_precedes o candle price))
        (liquidate_keeps price o s h)
        (after_levels_keeps (price_touched candle price o.trade.direction false) price
          (settle_levels candle params o s) (settle_levels_keeps o s h))

  pub update_keeps :
      (o : OpenTrade D F) (s : SimState D F)
      → Q (purse o) s.cash
      → AfterUpdate Q (update_open_trade candle params funding o s)
  unfolding update_open_trade mark_excursions
  update_keeps o s h =
      settle_candle_keeps (liquidation_price (r.0) params) (r.0) (r.1)
        (apply_keeps (mark_excursions candle o) s h).holds
    where
      r : OpenTrade D F × SimState D F
      r = apply_funding candle params funding (mark_excursions candle o) s

  pub force_close_keeps :
      (reason : String) (o : OpenTrade D F) (s : SimState D F)
      → Q (purse o) s.cash
      → After Q (force_close candle params funding reason o s)
  unfolding force_close
  force_close_keeps reason o s h =
      exit_keeps candle.close (int 100) candle.close_time taker reason (r.0) (r.1)
        (apply_keeps o s h).holds
    where
      r : OpenTrade D F × SimState D F
      r = apply_funding candle params funding o s
