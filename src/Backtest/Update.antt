-- ===== src/Backtest/Update.antt =====
-- backend/internal/backtesting/engine.go: `updateOpenTrade`, one candle applied to an open trade, and the
-- loops of `simulateSeries` that apply it to the whole book.
use crypto_market_advisor.Base.{
  ℕ, String, Bool, true, false, not, ◌&&◌, if◌then◌else◌, Option, none, some, List, [], ◌∷◌, ◌++◌,
}
use crypto_market_advisor.Numbers.Decimal.{Decimal, nought, greater_than, is_zero}
use crypto_market_advisor.Numbers.Float.{Float, Conversion, int}
use crypto_market_advisor.Domain.FeeType.{taker}
use crypto_market_advisor.Domain.Market.{Candle}
use crypto_market_advisor.Backtest.Params.{BacktestParams, BacktestTrade, OpenTrade}
use crypto_market_advisor.Backtest.Levels.{
  sign_of, price_touched, any_target_touched, stop_precedes, trail_stop, liquidation_fill,
  liquidation_price, to_level,
}
use crypto_market_advisor.Backtest.State.{SimState}
use crypto_market_advisor.Backtest.Exits.{
  execute_exit, execute_touched_targets, apply_funding, finalize_trade, force_close,
}

-- What `updateOpenTrade` leaves: the trade, the state, and the reason if the trade is closed.
pub record Updated (D F : Type 0) : Type 0 where
  pub trade : OpenTrade D F
  pub state : SimState D F
  pub closed : Option String

module _ {D F : Type 0} ⦃d : Decimal D⦄ ⦃f : Float F⦄ ⦃c : Conversion D F⦄ where
  -- The excursions.
  unfoldable pub mark_excursions : Candle F → OpenTrade D F → OpenTrade D F
  mark_excursions candle o =
      let change = λ (price : F).
        f.mul (f.mul (f.div (f.sub price o.entry_price) o.entry_price) (int 100))
          (sign_of o.trade.direction) in
      record o {
        mfe = f.max o.mfe (f.max (change candle.high) (change candle.low));
        mae = f.min o.mae (f.min (change candle.high) (change candle.low));
      }

module _ {D F : Type 0} ⦃d : Decimal D⦄ ⦃f : Float F⦄ ⦃c : Conversion D F⦄ (candle : Candle F)
    (params : BacktestParams D F) where
  unfoldable pub liquidate : (price : F) → OpenTrade D F → SimState D F → Updated D F
  unfolding execute_exit liquidation_fill
  liquidate price o s =
      let (o', s') =
        execute_exit (liquidation_fill o candle price) (int 100) candle.close_time params taker
          "liquidation" o s in
      record { trade = o'; state = s'; closed = some "liquidation" }

  -- The stop, executed where it was touched.
  unfoldable pub stop_out : (reason : String) → OpenTrade D F → SimState D F → Updated D F
  unfolding execute_touched_targets
  stop_out reason o s =
      let (o', s', left) = execute_touched_targets candle o.stop_loss false params reason o s in
      record { trade = record o' { stop_loss = left }; state = s'; closed = some reason }

  -- The targets, and then the rest protected at the entry price.
  unfoldable pub take : OpenTrade D F → SimState D F → Updated D F
  unfolding execute_touched_targets
  take o s =
      let (o', s', left) =
        execute_touched_targets candle o.take_profit true params "take_profit" o s in
      let banked = record o' { take_profit = left } in
      let protected = record banked { break_even = true; stop_loss = to_level o.entry_price } in
      record {
        trade =
            if params.break_even_after_tp
              && greater_than o'.remaining_qty nought
              && not o'.break_even
            then protected
            else banked;
        state = s';
        closed = some "take_profit";
      }

  -- The `switch` over the levels that were touched. `closed` is here the reason that it sets.
  unfoldable pub settle_levels : OpenTrade D F → SimState D F → Updated D F
  unfolding stop_out take any_target_touched
  settle_levels o s =
      let tp_touched = any_target_touched candle o.take_profit o.trade.direction true in
      let sl_touched = any_target_touched candle o.stop_loss o.trade.direction false in
      if tp_touched && sl_touched
      then stop_out "stop_loss_ambiguous_candle" o s
      else if sl_touched
      then stop_out "stop_loss" o s
      else if tp_touched
      then take o s
      else record { trade = o; state = s; closed = some "" }

  -- What follows the `switch`.
  unfoldable pub after_levels : (liquidated : Bool) → (price : F) → Updated D F → Updated D F
  unfolding liquidate trail_stop
  after_levels liquidated price u =
      if is_zero u.trade.remaining_qty
      then u
      else if liquidated
      then liquidate price (trail_stop u.trade candle) u.state
      else record { trade = trail_stop u.trade candle; state = u.state; closed = none }

  -- What a candle does once funding is charged, for a liquidation price if there is one.
  unfoldable pub settle_candle : Option F → OpenTrade D F → SimState D F → Updated D F
  unfolding liquidate settle_levels after_levels price_touched stop_precedes
  settle_candle none o s = after_levels false (int 0) (settle_levels o s)
  settle_candle (some price) o s =
      let liquidated = price_touched candle price o.trade.direction false in
      if liquidated && not (stop_precedes o candle price)
      then liquidate price o s
      else after_levels liquidated price (settle_levels o s)

  module _ (funding : ℕ → Option F) where
    unfoldable pub update_open_trade : OpenTrade D F → SimState D F → Updated D F
    unfolding mark_excursions apply_funding settle_candle liquidation_price
    update_open_trade o s =
        let (o', s') = apply_funding candle params funding (mark_excursions candle o) s in
        settle_candle (liquidation_price o' params) o' s'

-- What the loops over the book carry: the trades that are closed, the survivors, and the state.
pub record Book (D F : Type 0) : Type 0 where
  pub trades : List (BacktestTrade D F)
  pub held : List (OpenTrade D F)
  pub state : SimState D F

module _ {D F : Type 0} ⦃d : Decimal D⦄ ⦃f : Float F⦄ ⦃c : Conversion D F⦄ (symbol : String)
    (params : BacktestParams D F) (funding : ℕ → Option F) (candle : Candle F) where
  -- What one updated position adds to the book.
  unfoldable pub add_updated : Updated D F → Book D F → Book D F
  unfolding finalize_trade
  add_updated u b = elim u.closed [
    | some reason ↦ record {
      trades = b.trades ++ (finalize_trade symbol reason candle.close_time u.trade ∷ []);
      held = b.held;
      state = u.state;
    }
    | none ↦ record { trades = b.trades; held = b.held ++ (u.trade ∷ []); state = u.state }
  ]

  -- The loop over the open positions; `held` of the book are the survivors so far.
  unfoldable pub update_all : List (OpenTrade D F) → Book D F → Book D F
  unfolding update_open_trade add_updated
  update_all [] b = b
  update_all (position ∷ positions) b =
      update_all positions
        (add_updated (update_open_trade candle params funding position b.state) b)

  -- The loop that closes what is open at the end.
  unfoldable pub close_all : List (OpenTrade D F) → Book D F → Book D F
  unfolding force_close finalize_trade
  close_all [] b = b
  close_all (position ∷ positions) b =
      let (o, s) = force_close candle params funding "end_of_period" position b.state in
      close_all positions (record {
        trades = b.trades ++ (finalize_trade symbol "end_of_period" candle.close_time o ∷ []);
        held = b.held;
        state = s;
      })
