-- ===== src/Backtest/Fate.antt =====
-- backend/internal/backtesting/engine.go: a trade is closed by a candle exactly when nothing is left of it.
use crypto_market_advisor.Base.{
  ℕ, String, ◌≡◌, refl, ap, Bool, true, false, not, ◌&&◌, inl, inr, if_elim, Bool-cases, Option,
  none, some, arith,
}
use crypto_market_advisor.Numbers.Decimal.{Decimal, nought, is_zero}
use crypto_market_advisor.Numbers.Laws.{IsDecimal, ◌≼◌, ◌≺◌, is_zero→≡, pos_of_not_zero}
use crypto_market_advisor.Numbers.Sums.{sub_self}
use crypto_market_advisor.Numbers.Float.{Float, Conversion, int}
use crypto_market_advisor.Domain.Timeframe.{Time}
use crypto_market_advisor.Domain.FeeType.{FeeType, taker}
use crypto_market_advisor.Domain.Market.{Candle}
use crypto_market_advisor.Backtest.Params.{BacktestParams, OpenTrade}
use crypto_market_advisor.Backtest.Levels.{
  trail_stop, any_target_touched, price_touched, stop_precedes, liquidation_fill, liquidation_price,
}
use crypto_market_advisor.Backtest.State.{SimState}
use crypto_market_advisor.Backtest.Exits.{
  exit_quantity, book_exit, execute_exit, apply_funding, force_close,
}
use crypto_market_advisor.Backtest.Update.{
  Updated, mark_excursions, liquidate, stop_out, take, settle_levels, after_levels, settle_candle,
  update_open_trade,
}
use crypto_market_advisor.Backtest.Kept.{
  Purse, purse, purse-trail_stop, After, AfterUpdate, apply_keeps, settle_levels_keeps,
}
use crypto_market_advisor.Backtest.Ledger.{IsBalanced, exit_keeps, funding_keeps}

module _ {D : Type 0} ⦃d : Decimal D⦄ where
  -- Nothing is left of a closed trade, and something of one that goes on.
  abbrev pub Fate : Option String → D → Type 0
  Fate (some reason) left = left ≡ nought
  Fate none left = nought ≺ left

module _ {D F : Type 0} ⦃d : Decimal D⦄ ⦃f : Float F⦄ ⦃c : Conversion D F⦄ (laws : IsDecimal D)
    (whole_exit : f.le (int 100) (int 100) ≡ true) (params : BacktestParams D F) where
  -- An exit of 100 percent leaves nothing.
  pub execute_exit-all :
      (price : F) (at : Time) (fee_type : FeeType) (reason : String) (o : OpenTrade D F)
      (s : SimState D F)
      → nought ≼ o.remaining_qty
      → (execute_exit price (int 100) at params fee_type reason o s).0.remaining_qty ≡ nought
  unfolding execute_exit exit_quantity book_exit
  execute_exit-all price at fee_type reason o s h =
      elim (Bool-cases (d.lt nought o.remaining_qty)) [
        | inl p ↦
            ground (arith, whole_exit, p, sub_self laws o.remaining_qty, laws.lt_irrefl nought)
        | inr n ↦ ground (arith, whole_exit, n, laws.lt_total o.remaining_qty nought n h)
      ]

  module _ (candle : Candle F) where
    liquidate-Fate :
        (price : F) (o : OpenTrade D F) (s : SimState D F)
        → nought ≼ o.remaining_qty
        → let u = liquidate candle params price o s in Fate u.closed u.trade.remaining_qty
    unfolding liquidate
    liquidate-Fate price o s h =
        execute_exit-all (liquidation_fill o candle price) candle.close_time taker "liquidation" o s
          h

    settle_levels-names :
        (o : OpenTrade D F) (s : SimState D F)
        → (reason : String) × ((settle_levels candle params o s).closed ≡ some reason)
    unfolding settle_levels stop_out take
    settle_levels-names o s =
        if_elim Names (tp && sl) ("stop_loss_ambiguous_candle", refl)
          (if_elim Names sl ("stop_loss", refl) (if_elim Names tp ("take_profit", refl) ("", refl)))
      where
        Names : Updated D F → Type 0
        Names u = (reason : String) × (u.closed ≡ some reason)

        tp : Bool
        tp = any_target_touched candle o.take_profit o.trade.direction true

        sl : Bool
        sl = any_target_touched candle o.stop_loss o.trade.direction false

    remaining-trail_stop :
        (o : OpenTrade D F) → (trail_stop o candle).remaining_qty ≡ o.remaining_qty
    remaining-trail_stop o = ap (λ (p : Purse D). p.remaining) (purse-trail_stop o candle)

    after_levels-Fate :
        (liquidated : Bool) (price : F) (u : Updated D F)
        → ((reason : String) × (u.closed ≡ some reason))
        → nought ≼ u.trade.remaining_qty
        → let v = after_levels candle params liquidated price u in
          Fate v.closed v.trade.remaining_qty
    unfolding after_levels
    after_levels-Fate liquidated price u (reason, e) h =
        elim (Bool-cases (is_zero u.trade.remaining_qty)) [
          | inl z ↦ rw (z, e) (is_zero→≡ laws u.trade.remaining_qty z)
          | inr p ↦ elim (Bool-cases liquidated) [
            | inl l ↦
                rw (p, l)
                  (liquidate-Fate price (trail_stop u.trade candle) u.state
                    (rw (remaining-trail_stop u.trade) h))
            | inr n ↦
                rw (p, n, remaining-trail_stop u.trade)
                  (pos_of_not_zero laws u.trade.remaining_qty h p)
          ]
        ]

    module _ (k : D) (funding : ℕ → Option F) where
      -- A trade whose quantities add up is closed by a candle only if nothing is left of it.
      pub update-Fate :
          (o : OpenTrade D F) (s : SimState D F)
          → IsBalanced k (purse o) s.cash
          → let u = update_open_trade candle params funding o s in
            Fate u.closed u.trade.remaining_qty
      unfolding update_open_trade mark_excursions
      update-Fate o s h = settled (liquidation_price (r.0) params) (r.0) (r.1) charged.holds
        where
          r : OpenTrade D F × SimState D F
          r = apply_funding candle params funding (mark_excursions candle o) s

          charged : After (IsBalanced k) r
          charged =
              apply_keeps candle params funding (IsBalanced k) (exit_keeps laws params k)
                (funding_keeps laws params k candle funding) (mark_excursions candle o) s h

          leveled :
              (p : OpenTrade D F) (t : SimState D F)
              → IsBalanced k (purse p) t.cash
              → AfterUpdate (IsBalanced k) (settle_levels candle params p t)
          leveled =
              settle_levels_keeps candle params funding (IsBalanced k) (exit_keeps laws params k)
                (funding_keeps laws params k candle funding)

          settled :
              (price : Option F) (p : OpenTrade D F) (t : SimState D F)
              → IsBalanced k (purse p) t.cash
              → let u = settle_candle candle params price p t in Fate u.closed u.trade.remaining_qty
          settled none p t b =
              after_levels-Fate false (int 0) (settle_levels candle params p t)
                (settle_levels-names p t) (leveled p t b).holds.nonneg
          settled (some price) p t b =
              elim (Bool-cases (
                price_touched candle price p.trade.direction false
                && not (stop_precedes p candle price))) [
                  | inl e ↦ rw e (liquidate-Fate price p t b.nonneg)
                  | inr e ↦ rw e (
                      after_levels-Fate (price_touched candle price p.trade.direction false) price
                        (settle_levels candle params p t) (settle_levels-names p t)
                        (leveled p t b).holds.nonneg)
                ]

      -- What is closed at the end of the period is closed in full.
      pub force_close-empty :
          (reason : String) (o : OpenTrade D F) (s : SimState D F)
          → IsBalanced k (purse o) s.cash
          → (force_close candle params funding reason o s).0.remaining_qty ≡ nought
      unfolding force_close
      force_close-empty reason o s h =
          execute_exit-all candle.close candle.close_time taker reason (r.0) (r.1)
            charged.holds.nonneg
        where
          r : OpenTrade D F × SimState D F
          r = apply_funding candle params funding o s

          charged : After (IsBalanced k) r
          charged =
              apply_keeps candle params funding (IsBalanced k) (exit_keeps laws params k)
                (funding_keeps laws params k candle funding) o s h
