-- ===== src/Backtest/Metrics.antt =====
-- backend/internal/backtesting/metrics.go: `metrics`, the summary of a run. `sort` is sort.Strings.
use crypto_market_advisor.Base.{
  ℕ, suc, String, ◌||◌, if◌then◌else◌, Option, none, some, List, [], ◌∷◌, ◌++◌, ltb, ◌==◌, length,
}
use crypto_market_advisor.Base.Int.{ℤ, pos, ◌-ℤ◌, ◌*ℤ◌, quot_ℤ}
use crypto_market_advisor.Numbers.Decimal.{Decimal, nought, hundred, greater_than, less_than}
use crypto_market_advisor.Numbers.Float.{Float, Conversion, int}
use crypto_market_advisor.Domain.Timeframe.{Time, minute}
use crypto_market_advisor.Domain.Direction
use crypto_market_advisor.Backtest.Params.{BacktestTrade}
use crypto_market_advisor.Backtest.State.{SimState}

pub record BacktestMetrics (D F : Type 0) : Type 0 where
  pub total_return_pct : F
  pub final_capital : D
  pub trades : ℕ
  pub wins : ℕ
  pub losses : ℕ
  pub win_rate : F
  pub profit_factor : Option F
  pub expectancy : F
  pub max_drawdown_pct : F
  pub sharpe : Option F
  pub average_trade_pct : F
  pub average_mfe_pct : F
  pub average_mae_pct : F
  pub long_trades : ℕ
  pub short_trades : ℕ
  pub long_win_rate : F
  pub short_win_rate : F
  pub avg_holding_minute : F
  pub total_fees : D
  pub total_funding : D
  pub analysis_points : ℕ
  pub replay_from : Option Time
  pub replay_to : Option Time
  pub decision_reasons : List (String × ℕ)
  pub unfilled_entries : ℕ
  pub degraded_steps : ℕ
  pub data_issues : List String
  pub inferences_used : ℕ
  pub cache_hits : ℕ

-- The variables of the loop over the trades.
pub record Tally (D F : Type 0) : Type 0 where
  pub gross_profit : D
  pub gross_loss : D
  pub fees : D
  pub funding : D
  pub returns : List F
  pub mfe_sum : F
  pub mae_sum : F
  pub hold_sum : F
  pub wins : ℕ
  pub losses : ℕ
  pub long_wins : ℕ
  pub short_wins : ℕ
  pub long_trades : ℕ
  pub short_trades : ℕ

module _ {F : Type 0} ⦃f : Float F⦄ where
  unfoldable pub round2 : F → F
  round2 v =
      if f.is_nan v || f.is_inf v then int 0 else f.div (f.round (f.mul v (int 100))) (int 100)

  -- The loops of a sum.
  unfoldable pub sum_of : F → List F → F
  sum_of acc [] = acc
  sum_of acc (x ∷ xs) = sum_of (f.add acc x) xs

  unfoldable pub sum_squares : (mean : F) → F → List F → F
  sum_squares mean acc [] = acc
  sum_squares mean acc (x ∷ xs) =
      sum_squares mean (f.add acc (f.mul (f.sub x mean) (f.sub x mean))) xs

  -- `sharpeRatio`; `none` is its `false`.
  unfoldable pub sharpe_ratio : List F → Option F
  unfolding sum_of sum_squares round2
  sharpe_ratio returns =
      let n = int (length returns) in
      let mean = f.div (sum_of (int 0) returns) n in
      let sd = f.sqrt (f.div (sum_squares mean (int 0) returns) n) in
      if ltb (length returns) 5
      then none
      else if f.eq sd (int 0)
      then none
      else some (round2 (f.div mean sd))

  -- `Duration.Minutes`
  abbrev pub minutes : ℤ → F
  minutes length =
      let whole = quot_ℤ length (pos minute) in
      f.add (f.of_int whole) (f.div (f.of_int (length -ℤ whole *ℤ pos minute)) (int minute))

  abbrev pub add_if : F → Option F → F
  add_if acc none = acc
  add_if acc (some x) = f.add acc x

  unfoldable pub held_for : F → (opened_at : Time) → (closed_at : Option Time) → F
  unfolding quot_ℤ ◌-ℤ◌ ◌*ℤ◌
  held_for acc opened_at none = acc
  held_for acc opened_at (some at) = f.add acc (minutes (pos at -ℤ pos opened_at))

module _ {D F : Type 0} ⦃d : Decimal D⦄ ⦃f : Float F⦄ where
  abbrev pub no_tally : Tally D F
  no_tally = record {
    gross_profit = nought;
    gross_loss = nought;
    fees = nought;
    funding = nought;
    returns = [];
    mfe_sum = int 0;
    mae_sum = int 0;
    hold_sum = int 0;
    wins = 0;
    losses = 0;
    long_wins = 0;
    short_wins = 0;
    long_trades = 0;
    short_trades = 0;
  }

  -- The `switch` on the net profit.
  unfoldable pub judge_trade : BacktestTrade D F → Tally D F → Tally D F
  unfolding Direction.is_long
  judge_trade t a =
      let is_long = Direction.is_long t.direction in
      if greater_than t.net_pnl nought
      then record a {
        wins = suc a.wins;
        gross_profit = d.add a.gross_profit t.net_pnl;
        long_wins = if is_long then suc a.long_wins else a.long_wins;
        short_wins = if is_long then a.short_wins else suc a.short_wins;
      }
      else if less_than t.net_pnl nought
      then record a {
        losses = suc a.losses;
        gross_loss = d.add a.gross_loss (d.sub nought t.net_pnl);
      }
      else a

  unfoldable pub add_trade : BacktestTrade D F → Tally D F → Tally D F
  unfolding judge_trade held_for Direction.is_long
  add_trade t a =
      let judged = judge_trade t a in
      let is_long = Direction.is_long t.direction in
      record judged {
        fees = d.add a.fees t.fees;
        funding = d.add a.funding t.funding;
        long_trades = if is_long then suc a.long_trades else a.long_trades;
        short_trades = if is_long then a.short_trades else suc a.short_trades;
        returns = a.returns ++ (t.pnl_pct ∷ []);
        mfe_sum = add_if a.mfe_sum t.mfe_pct;
        mae_sum = add_if a.mae_sum t.mae_pct;
        hold_sum = held_for a.hold_sum t.opened_at t.closed_at;
      }

  unfoldable pub tally : List (BacktestTrade D F) → Tally D F → Tally D F
  unfolding add_trade
  tally [] a = a
  tally (t ∷ ts) a = tally ts (add_trade t a)

module _ {D F : Type 0} ⦃d : Decimal D⦄ ⦃f : Float F⦄ ⦃c : Conversion D F⦄
    (sort : List String → List String) where
  -- What does not need a trade.
  unfoldable pub base_metrics : SimState D F → (trades : ℕ) → BacktestMetrics D F
  unfolding round2
  base_metrics s trades =
      let return = c.to_float (d.mul (d.div (d.sub s.cash s.initial) s.initial) hundred) in
      let funded = greater_than s.initial nought in
      record {
        total_return_pct = if funded then round2 return else int 0;
        final_capital = d.round 4 s.cash;
        trades = trades;
        wins = 0;
        losses = 0;
        win_rate = int 0;
        profit_factor = none;
        expectancy = int 0;
        max_drawdown_pct = if funded then round2 s.max_drawdown_pct else int 0;
        sharpe = none;
        average_trade_pct = int 0;
        average_mfe_pct = int 0;
        average_mae_pct = int 0;
        long_trades = 0;
        short_trades = 0;
        long_win_rate = int 0;
        short_win_rate = int 0;
        avg_holding_minute = int 0;
        total_fees = nought;
        total_funding = nought;
        analysis_points = s.analysis_points;
        replay_from = if s.replay_from == 0 then none else some s.replay_from;
        replay_to = if s.replay_from == 0 then none else some s.replay_to;
        decision_reasons = s.reasons;
        unfilled_entries = s.unfilled_entries;
        degraded_steps = s.degraded_steps;
        data_issues = sort s.data_issues;
        inferences_used = s.inferences;
        cache_hits = s.cache_hits;
      }

  unfoldable pub metrics : SimState D F → List (BacktestTrade D F) → BacktestMetrics D F
  unfolding base_metrics tally round2 sum_of sharpe_ratio
  metrics s [] = base_metrics s 0
  metrics s (t ∷ ts) =
      let a = tally (t ∷ ts) no_tally in
      let n = int (length (t ∷ ts)) in
      let average = round2 (f.div (sum_of (int 0) a.returns) (int (length a.returns))) in
      record (base_metrics s (length (t ∷ ts))) {
        wins = a.wins;
        losses = a.losses;
        long_trades = a.long_trades;
        short_trades = a.short_trades;
        total_fees = d.round 4 a.fees;
        total_funding = d.round 4 a.funding;
        win_rate = round2 (f.div (int a.wins) n);
        average_mfe_pct = round2 (f.div a.mfe_sum n);
        average_mae_pct = round2 (f.div a.mae_sum n);
        avg_holding_minute = round2 (f.div a.hold_sum n);
        long_win_rate =
            if ltb 0 a.long_trades
            then round2 (f.div (int a.long_wins) (int a.long_trades))
            else int 0;
        short_win_rate =
            if ltb 0 a.short_trades
            then round2 (f.div (int a.short_wins) (int a.short_trades))
            else int 0;
        profit_factor =
            if greater_than a.gross_loss nought
            then some (round2 (c.to_float (d.div a.gross_profit a.gross_loss)))
            else none;
        average_trade_pct = average;
        expectancy = average;
        sharpe = sharpe_ratio a.returns;
      }
