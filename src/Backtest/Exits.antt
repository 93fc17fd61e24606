-- ===== src/Backtest/Exits.antt =====
-- backend/internal/backtesting/engine.go: what one candle does to an open trade. A function that changes
-- the trade and the state returns both.
use crypto_market_advisor.Base.{
  ℕ, zero, suc, ◌+◌, ◌-◌, ◌*◌, ◌/◌, String, Bool, not, ◌&&◌, ◌||◌, if◌then◌else◌, Option, none,
  some, List, [], ◌∷◌, ◌++◌, ltb,
}
use crypto_market_advisor.Base.Int.{pos, ◌-ℤ◌}
use crypto_market_advisor.Numbers.Decimal.{
  Decimal, nought, hundred, greater_than, less_than, less_than_or_equal, is_zero,
}
use crypto_market_advisor.Numbers.Float.{Float, Conversion, int}
use crypto_market_advisor.Domain.Timeframe.{Time, hour}
use crypto_market_advisor.Domain.Direction
use crypto_market_advisor.Domain.Direction.{Direction}
use crypto_market_advisor.Domain.FeeType.{FeeType, maker, taker}
use crypto_market_advisor.Domain.Market.{Candle}
use crypto_market_advisor.Domain.Plan.{PriceTarget}
use crypto_market_advisor.Pnl.{is_maker}
use crypto_market_advisor.Backtest.Params.{BacktestParams, BacktestTrade, OpenTrade, unix}
use crypto_market_advisor.Backtest.Levels.{sign_of, price_touched, stop_fill, fee_for}
use crypto_market_advisor.Backtest.State.{SimState}

-- The two sides of a `sort.SliceStable` by price: a level goes before the first that it is less than.
module _ {F : Type 0} ⦃f : Float F⦄ where
  abbrev pub before : (ascending : Bool) → PriceTarget F → PriceTarget F → Bool
  before ascending a b = if ascending then f.lt a.price b.price else f.lt b.price a.price

  unfoldable pub insert_level :
      (ascending : Bool) → PriceTarget F → List (PriceTarget F) → List (PriceTarget F)
  insert_level ascending x [] = x ∷ []
  insert_level ascending x (y ∷ ys) =
      let rest = insert_level ascending x ys in
      if before ascending y x then y ∷ rest else x ∷ y ∷ ys

  unfoldable pub sort_levels : (ascending : Bool) → List (PriceTarget F) → List (PriceTarget F)
  unfolding insert_level
  sort_levels ascending [] = []
  sort_levels ascending (x ∷ xs) = insert_level ascending x (sort_levels ascending xs)

module _ {D F : Type 0} ⦃d : Decimal D⦄ ⦃f : Float F⦄ ⦃c : Conversion D F⦄ where
  -- The quantity that `executeExit` takes.
  unfoldable pub exit_quantity : OpenTrade D F → (close_pct : F) → D
  exit_quantity o close_pct =
      let qty = d.div (d.mul o.original_qty (c.to_decimal close_pct)) hundred in
      if f.le (int 100) close_pct || greater_than qty o.remaining_qty then o.remaining_qty else qty

  -- The price at which it fills.
  unfoldable pub exit_price : BacktestParams D F → Direction → FeeType → F → D
  unfolding Direction.sign
  exit_price params direction fee_type price = c.to_decimal (
      if is_maker fee_type
      then price
      else f.mul price (
          f.sub (int 1)
            (f.mul (sign_of direction) (f.div (c.to_float params.slippage_pct) (int 100)))))

  -- What it books for a quantity at a price.
  unfoldable pub book_exit :
      BacktestParams D F
      → (at : Time) → FeeType
      → (reason : String) → (qty exit : D) → OpenTrade D F
      → SimState D F
      → OpenTrade D F × SimState D F
  unfolding fee_for Direction.sign
  book_exit params at fee_type reason qty exit o s =
      let gross =
        d.mul (d.mul (d.sub exit o.trade.entry_price) qty)
          (d.of_int (Direction.sign o.trade.direction)) in
      let exit_fee = fee_for (d.mul exit qty) params fee_type in
      let left = d.sub o.remaining_qty qty in
      (
        record o {
          gross_pnl = d.add o.gross_pnl gross;
          fees = d.add o.fees exit_fee;
          exit_notional = d.add o.exit_notional (d.mul exit qty);
          exited_qty = d.add o.exited_qty qty;
          remaining_qty = if less_than left nought then nought else left;
          executions =
              o.executions
              ++ (record {
                kind = reason;
                executed_at = at;
                price = exit;
                quantity = qty;
                close_pct = c.to_float (d.mul (d.div qty o.original_qty) hundred);
                gross_pnl = d.round 10 gross;
                fee = d.round 10 exit_fee;
                funding = nought;
                fee_type = fee_type;
              }
                  ∷ []);
        },
        record s { cash = d.sub (d.add s.cash gross) exit_fee },
      )

  unfoldable pub execute_exit :
      (price close_pct : F)
      → (at : Time) → BacktestParams D F
      → FeeType
      → (reason : String) → OpenTrade D F
      → SimState D F
      → OpenTrade D F × SimState D F
  unfolding exit_quantity exit_price book_exit
  execute_exit price close_pct at params fee_type reason o s =
      let qty = exit_quantity o close_pct in
      if less_than_or_equal qty nought
      then (o, s)
      else book_exit params at fee_type reason qty
          (exit_price params o.trade.direction fee_type price) o s

  -- The loop of `executeTouchedTargets`, over the levels in their order: the trade, the state and the
  -- levels that remain.
  unfoldable pub execute_levels :
      Candle F
      → (take_profit : Bool) → BacktestParams D F
      → (reason : String) → List (PriceTarget F)
      → OpenTrade D F
      → SimState D F
      → OpenTrade D F × SimState D F × List (PriceTarget F)
  unfolding execute_exit price_touched stop_fill
  execute_levels candle take_profit params reason [] o s = (o, s, [])
  execute_levels candle take_profit params reason (level ∷ levels) o s =
      let close_pct = if f.le level.close_pct (int 0) then int 100 else level.close_pct in
      let fill =
        if take_profit then level.price else stop_fill level.price candle o.trade.direction in
      let fee_type = if take_profit then maker else taker in
      let (o', s') = execute_exit fill close_pct candle.close_time params fee_type reason o s in
      let skipped = execute_levels candle take_profit params reason levels o s in
      let went_on = execute_levels candle take_profit params reason levels o' s' in
      if not (price_touched candle level.price o.trade.direction take_profit)
      then (skipped.0, skipped.1, level ∷ skipped.2)
      else if is_zero o'.remaining_qty
      then (o', s', [])
      else went_on

  unfoldable pub execute_touched_targets :
      Candle F
      → List (PriceTarget F)
      → (take_profit : Bool) → BacktestParams D F
      → (reason : String) → OpenTrade D F
      → SimState D F
      → OpenTrade D F × SimState D F × List (PriceTarget F)
  unfolding execute_levels sort_levels Direction.is_long Direction.is_short
  execute_touched_targets candle levels take_profit params reason o s =
      let ascending =
        (Direction.is_long o.trade.direction && take_profit)
        || (Direction.is_short o.trade.direction && not take_profit) in
      execute_levels candle take_profit params reason (sort_levels ascending levels) o s

  -- The rate of a settlement: the published one, or else the flat rate.
  abbrev pub rate_at : BacktestParams D F → (funding : ℕ → Option F) → Time → D
  rate_at params funding at = elim (funding (unix at)) [
    | none ↦ params.funding_rate_pct
    | some actual ↦ c.to_decimal actual
  ]

  -- The amount of a settlement: a long pays a positive rate.
  unfoldable pub funding_amount :
      Candle F → BacktestParams D F → (funding : ℕ → Option F) → OpenTrade D F → D
  unfolding Direction.sign ◌-ℤ◌
  funding_amount candle params funding o =
      d.mul
        (d.div
          (d.mul (d.mul (c.to_decimal candle.open_price) o.remaining_qty)
            (rate_at params funding o.next_funding_at))
          hundred)
        (d.of_int (pos 0 -ℤ Direction.sign o.trade.direction))

  -- One round of `applyFunding`.
  unfoldable pub settle_funding :
      Candle F
      → BacktestParams D F
      → (funding : ℕ → Option F) → OpenTrade D F
      → SimState D F
      → OpenTrade D F × SimState D F
  unfolding funding_amount
  settle_funding candle params funding o s =
      let rate = rate_at params funding o.next_funding_at in
      let amount = funding_amount candle params funding o in
      let later = o.next_funding_at + 8 * hour in
      if not (is_zero rate) && greater_than o.remaining_qty nought
      then (
        record o {
          funding = d.add o.funding amount;
          executions =
              o.executions
              ++ (record {
                kind = "funding";
                executed_at = o.next_funding_at;
                price = c.to_decimal candle.open_price;
                quantity = o.remaining_qty;
                close_pct = int 0;
                gross_pnl = nought;
                fee = nought;
                funding = d.round 10 amount;
                fee_type = FeeType.other "";
              }
                  ∷ []);
          next_funding_at = later;
        },
        record s { cash = d.add s.cash amount },
      )
      else (record o { next_funding_at = later }, s)

  -- The loop of `applyFunding`, for a number of rounds that is enough.
  unfoldable pub funding_rounds :
      (rounds : ℕ)
      → Candle F
      → BacktestParams D F
      → (funding : ℕ → Option F) → OpenTrade D F
      → SimState D F
      → OpenTrade D F × SimState D F
  unfolding settle_funding
  funding_rounds zero candle params funding o s = (o, s)
  funding_rounds (suc rounds) candle params funding o s =
      let (o', s') = settle_funding candle params funding o s in
      let rest = funding_rounds rounds candle params funding o' s' in
      if ltb candle.close_time o.next_funding_at then (o, s) else rest

  unfoldable pub apply_funding :
      Candle F
      → BacktestParams D F
      → (funding : ℕ → Option F) → OpenTrade D F
      → SimState D F
      → OpenTrade D F × SimState D F
  unfolding funding_rounds
  apply_funding candle params funding o s =
      funding_rounds (suc ((candle.close_time - o.next_funding_at) / (8 * hour))) candle params
        funding o s

  unfoldable pub finalize_trade :
      (symbol : String) → (reason : String) → (at : Time) → OpenTrade D F → BacktestTrade D F
  finalize_trade symbol reason at o =
      let gross = d.round 10 o.gross_pnl in
      let fees = d.round 10 o.fees in
      let funding = d.round 10 o.funding in
      let net = d.round 10 (d.add (d.sub gross fees) funding) in
      let margin = d.div (d.mul o.trade.entry_price o.original_qty) o.trade.leverage in
      let pct = c.to_float (d.mul (d.div net margin) hundred) in
      record o.trade {
        symbol = symbol;
        closed_at = some at;
        exit_price =
            if greater_than o.exited_qty nought
            then some (d.div o.exit_notional o.exited_qty)
            else o.trade.exit_price;
        gross_pnl = gross;
        fees = fees;
        funding = funding;
        net_pnl = net;
        exit_reason = reason;
        executions = o.executions;
        mfe_pct = some o.mfe;
        mae_pct = some o.mae;
        pnl_pct =
            if greater_than margin nought
            then f.div (f.round (f.mul pct (int 100))) (int 100)
            else o.trade.pnl_pct;
      }

  -- `forceClose`, without the final record.
  unfoldable pub force_close :
      Candle F
      → BacktestParams D F
      → (funding : ℕ → Option F) → (reason : String) → OpenTrade D F
      → SimState D F
      → OpenTrade D F × SimState D F
  unfolding apply_funding execute_exit
  force_close candle params funding reason o s =
      let (o', s') = apply_funding candle params funding o s in
      execute_exit candle.close (int 100) candle.close_time params taker reason o' s'
