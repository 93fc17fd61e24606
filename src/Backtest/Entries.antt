-- ===== src/Backtest/Entries.antt =====
-- backend/internal/backtesting/engine.go: how a position is opened, at the market or by a resting order.
use crypto_market_advisor.Base.{
  ℕ, Bool, true, false, ◌||◌, if◌then◌else◌, Option, none, some, List, [], ◌∷◌, ltb,
}
use crypto_market_advisor.Base.{◌+◌, ◌-◌, ◌*◌, ◌%◌}
use crypto_market_advisor.Base.Int.{ℤ, pos, leb_ℤ}
use crypto_market_advisor.Numbers.Decimal.{
  Decimal, nought, hundred, greater_than, less_than_or_equal,
}
use crypto_market_advisor.Numbers.Float.{Float, Conversion, int}
use crypto_market_advisor.Domain.Timeframe.{Time, hour}
use crypto_market_advisor.Domain.Direction
use crypto_market_advisor.Domain.Direction.{Direction, short}
use crypto_market_advisor.Domain.RecommendationAction.{open_long, open_short}
use crypto_market_advisor.Domain.RiskLevel.{RiskLevel}
use crypto_market_advisor.Domain.FeeType.{FeeType, taker}
use crypto_market_advisor.Domain.Market.{Candle}
use crypto_market_advisor.Domain.Plan.{PriceTarget}
use crypto_market_advisor.Risk.Input.{RiskConfig, FeatureSnapshot, Input}
use crypto_market_advisor.Risk.Engine.{evaluate}
use crypto_market_advisor.Backtest.Params.{
  BacktestParams, pnl_ladder, trailing_atr, OpenTrade, SignalResult,
}
use crypto_market_advisor.Backtest.Levels.{
  sign_of, is_nil, to_level, shift_targets, ladder_targets, fee_for,
}
use crypto_market_advisor.Backtest.State.{SimState, equity, available_margin}

-- `nextFundingAfter`: the first multiple of eight hours of the day that is later.
unfoldable pub next_funding_after : Time → Time
next_funding_after at =
    let day = at - at % (24 * hour) in
    if ltb at day
    then day
    else if ltb at (day + 8 * hour)
    then day + 8 * hour
    else if ltb at (day + 16 * hour)
    then day + 16 * hour
    else if ltb at (day + 24 * hour)
    then day + 24 * hour
    else day + 24 * hour

-- `exitPlan`
pub record ExitPlan (F : Type 0) : Type 0 where
  pub stop : F
  pub target1 : F
  pub target2 : F
  pub target1_close : F

-- `riskRequest`
pub record RiskRequest (D F : Type 0) : Type 0 where
  pub direction : Direction
  pub confidence : ℤ
  pub leverage : ℤ
  pub risk_level : RiskLevel
  pub price : F
  pub stops : List (PriceTarget F)
  pub atr : F
  pub allocation : D

-- The exit plan of a new position; `none` where the mode cannot build one.
pub record Exits (F : Type 0) : Type 0 where
  pub take_profit : List (PriceTarget F)
  pub stop_loss : List (PriceTarget F)
  pub trail_atr : F

module _ {D F : Type 0} ⦃d : Decimal D⦄ ⦃f : Float F⦄ ⦃c : Conversion D F⦄ where
  -- A parameter if it is positive, or else the shipped default.
  abbrev pub or_default : D → F → F
  or_default x default = if f.lt (int 0) (c.to_float x) then c.to_float x else default

  -- The same, tested by `<= 0`.
  abbrev pub trailing_mult : BacktestParams D F → F
  trailing_mult params =
      if f.le (c.to_float params.trailing_atr_mult) (int 0)
      then f.lit 25 1
      else c.to_float params.trailing_atr_mult

  unfoldable pub atr_plan : BacktestParams D F → ExitPlan F
  atr_plan params =
      let t1 = or_default params.atr_target1_mult (int 3) in
      let t2 = or_default params.atr_target2_mult (int 6) in
      let v = c.to_float params.atr_target1_close_pct in
      let close = if f.lt (int 0) v then f.min v (int 100) else int 50 in
      record {
        stop = or_default params.atr_stop_mult (f.lit 15 1);
        target1 = t1;
        target2 = t2;
        target1_close = if f.le t2 t1 then int 100 else close;
      }

  unfoldable pub requires_atr : BacktestParams D F → Bool
  requires_atr params = elim params.exit_mode [
    | trailing_atr ↦ true
    | _ ↦ greater_than params.entry_pullback_atr nought
  ]

  -- `effectiveStops`
  unfoldable pub effective_stops :
      RiskRequest D F → (leverage : ℤ) → BacktestParams D F → List (PriceTarget F)
  unfolding ladder_targets
  effective_stops req leverage params =
      let price =
        f.sub req.price (f.mul (f.mul (sign_of req.direction) req.atr) (trailing_mult params)) in
      let ladder = ladder_targets params.stop_loss_ladder req.price req.direction leverage false in
      elim params.exit_mode [
        | trailing_atr ↦
            if f.le req.atr (int 0) || f.le req.price (int 0)
            then req.stops
            else if f.le price (int 0)
            then req.stops
            else to_level price
        | pnl_ladder ↦ if is_nil ladder then req.stops else ladder
        | _ ↦ req.stops
      ]

  -- What `riskPlan` asks the risk engine.
  unfoldable pub risk_input :
      RiskConfig D F → RiskRequest D F → FeatureSnapshot F → BacktestParams D F → Input D F
  unfolding effective_stops Direction.is_short
  risk_input cfg req snapshot params =
      let configured = d.int_part params.leverage in
      let fallback = if leb_ℤ configured (pos 0) then cfg.min_leverage else configured in
      let requested = if leb_ℤ req.leverage (pos 0) then fallback else req.leverage in
      record {
        action = if Direction.is_short req.direction then open_short else open_long;
        confidence = req.confidence;
        llm_leverage = requested;
        llm_allocation = req.allocation;
        llm_risk_level = req.risk_level;
        reference_price = req.price;
        stop_loss = effective_stops req requested params;
        snapshot = snapshot;
      }

  -- `riskPlan`, with the snapshot and the configuration of the risk engine.
  unfoldable pub risk_plan :
      RiskConfig D F → RiskRequest D F → FeatureSnapshot F → BacktestParams D F → ℤ × D
  unfolding evaluate risk_input
  risk_plan cfg req snapshot params =
      let assessment = evaluate cfg (risk_input cfg req snapshot params) in
      (assessment.leverage.recommended, assessment.allocation_pct)

  unfoldable pub exits_of : SignalResult D F → (entry : F) → BacktestParams D F → Option (Exits F)
  unfolding ladder_targets
  exits_of signal entry params =
      let trail = f.mul signal.atr (trailing_mult params) in
      elim params.exit_mode [
        | pnl_ladder ↦ some (record {
          take_profit =
              ladder_targets params.take_profit_ladder entry signal.direction signal.leverage true;
          stop_loss =
              ladder_targets params.stop_loss_ladder entry signal.direction signal.leverage false;
          trail_atr = int 0;
        })
        | trailing_atr ↦
            if f.le signal.atr (int 0)
            then none
            else some (record {
              take_profit = [];
              stop_loss = to_level (f.sub entry (f.mul (sign_of signal.direction) trail));
              trail_atr = trail;
            })
        | _ ↦ some (record {
          take_profit = signal.take_profit;
          stop_loss = signal.stop_loss;
          trail_atr = int 0;
        })
      ]

  -- The position that `openTradeAt` returns.
  abbrev pub new_trade :
      SignalResult D F
      → (entry : F) → FeeType
      → Candle F
      → (margin quantity fee : D) → Exits F
      → OpenTrade D F
  new_trade signal entry fee_type candle margin quantity fee exits = record {
    trade = record {
      symbol = "";
      direction = signal.direction;
      opened_at = candle.close_time;
      closed_at = none;
      entry_price = c.to_decimal entry;
      exit_price = none;
      quantity = quantity;
      leverage = d.of_int signal.leverage;
      allocation_pct = signal.allocation_pct;
      gross_pnl = nought;
      fees = fee;
      funding = nought;
      net_pnl = nought;
      pnl_pct = int 0;
      mfe_pct = none;
      mae_pct = none;
      exit_reason = "";
      confidence = signal.confidence;
      executions = [];
    };
    take_profit = exits.take_profit;
    stop_loss = exits.stop_loss;
    entry_price = entry;
    original_qty = quantity;
    remaining_qty = quantity;
    initial_margin = margin;
    gross_pnl = nought;
    fees = fee;
    funding = nought;
    exit_notional = nought;
    exited_qty = nought;
    executions =
        record {
          kind = "entry";
          executed_at = candle.close_time;
          price = c.to_decimal entry;
          quantity = quantity;
          close_pct = int 0;
          gross_pnl = nought;
          fee = fee;
          funding = nought;
          fee_type = fee_type;
        }
        ∷ [];
    next_funding_at = next_funding_after candle.close_time;
    break_even = false;
    trail_atr = exits.trail_atr;
    peak = entry;
    mfe = int 0;
    mae = int 0;
  }

  -- The end of `openTradeAt`, once the size is known: the margin must be free.
  unfoldable pub open_sized :
      SignalResult D F
      → (entry : F) → FeeType
      → Candle F
      → BacktestParams D F
      → SimState D F
      → List (OpenTrade D F)
      → (margin notional quantity : D) → Option (OpenTrade D F) × SimState D F
  unfolding exits_of fee_for available_margin next_funding_after
  open_sized signal entry fee_type candle params state positions margin notional quantity =
      elim (exits_of signal entry params) [
        | none ↦ (none, state)
        | some exits ↦
            let fee = fee_for notional params fee_type in
            if greater_than (d.add margin fee) (available_margin state positions)
            then (none, state)
            else (
              some (new_trade signal entry fee_type candle margin quantity fee exits),
              record state { cash = d.sub state.cash fee },
            )
      ]

  -- `openTradeAt`; `none` is the nil position.
  unfoldable pub open_trade_at :
      SignalResult D F
      → (entry : F) → FeeType
      → Candle F
      → BacktestParams D F
      → SimState D F
      → List (OpenTrade D F)
      → Option (OpenTrade D F) × SimState D F
  unfolding open_sized equity
  open_trade_at signal entry fee_type candle params state positions =
      let margin = d.div (d.mul (equity state) signal.allocation_pct) hundred in
      let notional = d.mul margin (d.of_int signal.leverage) in
      let quantity = d.div notional (c.to_decimal entry) in
      if f.le entry (int 0)
      then (none, state)
      else if less_than_or_equal signal.allocation_pct nought
      then (none, state)
      else if less_than_or_equal quantity nought
      then (none, state)
      else open_sized signal entry fee_type candle params state positions margin notional quantity

  unfoldable pub open_trade_from :
      SignalResult D F
      → Candle F
      → BacktestParams D F
      → SimState D F
      → List (OpenTrade D F)
      → Option (OpenTrade D F) × SimState D F
  unfolding open_trade_at Direction.sign
  open_trade_from signal candle params state positions =
      let slippage = f.div (c.to_float params.slippage_pct) (int 100) in
      open_trade_at signal
        (f.mul candle.close (f.add (int 1) (f.mul (sign_of signal.direction) slippage))) taker
        candle params state positions

-- `pendingEntry`, a signal that waits for the market to come back to it.
pub record PendingEntry (D F : Type 0) : Type 0 where
  pub signal : SignalResult D F
  pub limit : F
  pub expires_at : ℕ

module _ {D F : Type 0} ⦃f : Float F⦄ where
  unfoldable pub fills : PendingEntry D F → Candle F → Bool
  unfolding Direction.is_long
  fills p candle =
      if Direction.is_long p.signal.direction
      then f.le candle.low p.limit
      else f.le p.limit candle.high

  unfoldable pub shifted : PendingEntry D F → SignalResult D F
  unfolding shift_targets
  shifted p =
      let shift = f.sub p.limit p.signal.reference in
      if f.eq shift (int 0) then p.signal else record (p.signal) {
        reference = p.limit;
        take_profit = shift_targets p.signal.take_profit shift;
        stop_loss = shift_targets p.signal.stop_loss shift;
      }
