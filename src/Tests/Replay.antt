-- ===== src/Tests/Replay.antt =====
-- Concrete replays.
use crypto_market_advisor.Base.{
  ℕ, zero, suc, ◌+◌, ◌*◌, ◌≡◌, refl, true, false, none, some, List, [], ◌∷◌, ◌++◌, map, arith,
}
use crypto_market_advisor.Base.Int.{ℤ, pos, ◌+ℤ◌, ◌-ℤ◌, ◌*ℤ◌, quot_ℤ}
use crypto_market_advisor.Numbers.Whole.{whole, whole-IsDecimal}
use crypto_market_advisor.Numbers.Sums.{total}
use crypto_market_advisor.Numbers.Fixed.{Hundredths, hundredths, hundredths_conversion}
use crypto_market_advisor.Domain.Timeframe.{Time, minute, hour, tf1m}
use crypto_market_advisor.Domain.Direction.{long}
use crypto_market_advisor.Domain.FeeType.{taker}
use crypto_market_advisor.Domain.Market.{Candle}
use crypto_market_advisor.Backtest.Params.{
  technical, signal_levels, BacktestParams, BacktestTrade, OpenTrade, SignalResult,
}
use crypto_market_advisor.Backtest.State.{SimState, new_sim_state}
use crypto_market_advisor.Backtest.Update.{Book}
use crypto_market_advisor.Backtest.Loop.{
  View, SignalDecision, SimulationInputs, Replay, running, simulate, bars, start,
}
use crypto_market_advisor.Backtest.Exits.{apply_funding}
use crypto_market_advisor.Backtest.Entries.{open_trade_at}
use crypto_market_advisor.Backtest.Account.{brought, Finals}
use crypto_market_advisor.Backtest.Conserved.{capital, simulate-IsConserved}
use crypto_market_advisor.Backtest.Causal.{Agree}
use crypto_market_advisor.Backtest.LookAhead.{AgreeInputs, bars-Agree}
use crypto_market_advisor.Backtest.Steps.{HoldsIn}
use crypto_market_advisor.Backtest.Capacity.{Fits, bars-Fits, start-Fits}
use crypto_market_advisor.Backtest.Opening.{Attempt, open_trade_at-Attempt}
use crypto_market_advisor.Backtest.Clock.{IsSettled, apply_funding-IsSettled}
use crypto_market_advisor.Backtest.Signals.{PolicyDecision, technical_signal, judge, atr_or_zero}
use crypto_market_advisor.Backtest.Allowed.{IsAllowed, signals-IsAllowed}
use crypto_market_advisor.Tests.Data.{bar}
use crypto_market_advisor.Tests.Risk.{policy, request}

abbrev params : BacktestParams ℤ Hundredths
params = record {
  date_from = 0;
  analysis_interval = "";
  initial_capital = pos 10000;
  allocation_pct = pos 10;
  leverage = pos 2;
  slippage_pct = pos 0;
  maker_fee_pct = pos 1;
  taker_fee_pct = pos 1;
  funding_rate_pct = pos 0;
  maintenance_margin_pct = pos 1;
  max_open_positions = pos 1;
  min_confidence = pos 50;
  break_even_after_tp = false;
  exit_mode = signal_levels;
  trailing_atr_mult = pos 0;
  take_profit_ladder = [];
  stop_loss_ladder = [];
  atr_stop_mult = pos 0;
  atr_target1_mult = pos 0;
  atr_target2_mult = pos 0;
  atr_target1_close_pct = pos 0;
  entry_pullback_atr = pos 0;
  entry_valid_bars = pos 0;
}

-- Buy at 100 with a target of 110 and a stop of 90.
abbrev buy : SignalResult ℤ Hundredths
buy = record {
  direction = long;
  reference = pos 10000;
  confidence = pos 70;
  leverage = pos 2;
  allocation_pct = pos 10;
  take_profit = record { price = pos 11000; close_pct = pos 10000; reason = "" } ∷ [];
  stop_loss = record { price = pos 9000; close_pct = pos 10000; reason = "" } ∷ [];
  atr = pos 100;
}

abbrev always_buy : View ℤ Hundredths → SignalDecision ℤ Hundredths
always_buy view = record {
  signal = some buy;
  reason = "entry";
  quality = record { status = none; missing_fields = [] };
  inference_cost = 0;
  cache_hit = 0;
  failed = false;
}

abbrev replay : Replay ℤ Hundredths
replay = record {
  symbol = "BTC";
  mode = technical;
  timeframe = tf1m;
  params = params;
  funding = λ n. none;
  candle_history_limit = pos 0;
  random_entry_chance = pos 0;
  dice = λ n. pos 0;
  random_entry_signal = λ view candle. none;
  decide = always_buy;
  pauses = false;
  canceled = λ n. false;
  canceled_in_pause = λ n. false;
  parse_duration = λ s. none;
}

-- n quiet minutes at 100, from minute i on.
abbrev quiet : (n i : ℕ) → List (Candle Hundredths)
quiet zero i = []
quiet (suc n) i = bar i 9900 10100 10000 ∷ quiet n (suc i)

-- An entry at minute 30, its target in minute 31, another entry, and the end.
abbrev history : List (Candle Hundredths)
history = quiet 31 0 ++ (bar 31 10000 11200 11000 ∷ bar 32 10800 11000 10900 ∷ [])

abbrev inputs : SimulationInputs Hundredths
inputs = record { series = λ tf. history; benchmark = [] }

replay_ends : (b : Book ℤ Hundredths) × (simulate replay inputs ≡ running b)
unfolding simulate start quot_ℤ ◌-ℤ◌ ◌*ℤ◌ ◌+ℤ◌
replay_ends = (_, refl)

abbrev ended : Book ℤ Hundredths
ended = replay_ends.0

-- Two trades that reached the target, and one that the end of the period closed.
ended-trades :
    map (λ (t : BacktestTrade ℤ Hundredths). t.exit_reason) ended.trades
    ≡ "take_profit" ∷ "take_profit" ∷ "end_of_period" ∷ []
unfolding simulate start replay_ends quot_ℤ ◌-ℤ◌ ◌*ℤ◌ ◌+ℤ◌
ended-trades = refl

simulate-IsConserved_example :
    (ended.held ≡ [])
    × ((done : List (OpenTrade ℤ Hundredths)) × Finals done ended.trades
        × (ended.state.cash ≡ whole.add (capital params) (total brought done)))
unfolding ◌*ℤ◌
simulate-IsConserved_example =
    simulate-IsConserved whole-IsDecimal refl replay inputs ended replay_ends.1

-- The same history with another last minute, of a fall.
abbrev other_inputs : SimulationInputs Hundredths
other_inputs = record {
  series = λ tf. quiet 31 0 ++ (bar 31 10000 11200 11000 ∷ bar 32 5000 11000 5000 ∷ []);
  benchmark = [];
}

abbrev until : Time
until = 32 * minute

histories_agree : AgreeInputs until inputs other_inputs
histories_agree = (
  λ tf. agree,
  record {
    common = [];
    xs_later = [];
    ys_later = [];
    xs_split = refl;
    ys_split = refl;
    ascending = tt;
    xs_after = tt;
    ys_after = tt;
  },
)
  where
    agree :
        Agree until history (quiet 31 0 ++ (bar 31 10000 11200 11000 ∷ bar 32 5000 11000 5000 ∷ []))
    agree = record {
      common = quiet 31 0 ++ bar 31 10000 11200 11000 ∷ [];
      xs_later = bar 32 10800 11000 10900 ∷ [];
      ys_later = bar 32 5000 11000 5000 ∷ [];
      xs_split = refl;
      ys_split = refl;
      ascending = ground arith;
      xs_after = (omega arith, tt);
      ys_after = (omega arith, tt);
    }

bars-Agree_example :
    bars replay inputs 30 (bar 30 9900 10100 10000 ∷ bar 31 10000 11200 11000 ∷ []) (start replay)
    ≡ bars replay other_inputs 30
        (bar 30 9900 10100 10000 ∷ bar 31 10000 11200 11000 ∷ [])
        (start replay)
bars-Agree_example =
    bars-Agree replay until inputs other_inputs histories_agree 30
      (bar 30 9900 10100 10000 ∷ bar 31 10000 11200 11000 ∷ []) (start replay)
      (omega arith, (omega arith, tt))

bars-Fits_example : HoldsIn (Fits replay) (bars replay inputs 30 history (start replay))
bars-Fits_example = bars-Fits replay inputs 30 history (start replay) (start-Fits replay)

abbrev at_start : SimState ℤ Hundredths
at_start = new_sim_state params

open_trade_at-Attempt_example :
    Attempt at_start []
      (open_trade_at buy (pos 10000) taker (bar 30 9900 10100 10000) params at_start [])
open_trade_at-Attempt_example =
    open_trade_at-Attempt buy (pos 10000) taker (bar 30 9900 10100 10000) params at_start []

abbrev bought : OpenTrade ℤ Hundredths
bought = record {
  trade = record {
    symbol = "BTC";
    direction = long;
    opened_at = 0;
    closed_at = none;
    entry_price = pos 100;
    exit_price = none;
    quantity = pos 20;
    leverage = pos 2;
    allocation_pct = pos 10;
    gross_pnl = pos 0;
    fees = pos 20;
    funding = pos 0;
    net_pnl = pos 0;
    pnl_pct = pos 0;
    mfe_pct = none;
    mae_pct = none;
    exit_reason = "";
    confidence = pos 70;
    executions = [];
  };
  take_profit = [];
  stop_loss = [];
  entry_price = pos 10000;
  original_qty = pos 20;
  remaining_qty = pos 20;
  initial_margin = pos 1000;
  gross_pnl = pos 0;
  fees = pos 20;
  funding = pos 0;
  exit_notional = pos 0;
  exited_qty = pos 0;
  executions = [];
  next_funding_at = 8 * hour;
  break_even = false;
  trail_atr = pos 0;
  peak = pos 10000;
  mfe = pos 0;
  mae = pos 0;
}

-- A day later, three settlements are due.
apply_funding-IsSettled_example :
    IsSettled
      (bar (25 * 60 + 59) 1 1 1)
      params
      (λ n. none)
      bought
      at_start
      (apply_funding (bar (25 * 60 + 59) 1 1 1) params (λ n. none) bought at_start)
apply_funding-IsSettled_example =
    apply_funding-IsSettled (bar (25 * 60 + 59) 1 1 1) params (λ n. none) whole-IsDecimal bought
      at_start

abbrev wants : PolicyDecision
wants = record { is_entry = true; reason = "entry"; confidence = pos 60; direction = long }

signals-IsAllowed_example :
    IsAllowed policy params
      (omega arith)
      (technical_signal policy params wants
        (some (pos 100))
        request.snapshot
        (bar 30 9900 10100 10000)).0
    × IsAllowed policy params
        (omega arith)
        (judge policy params none
          (atr_or_zero policy params (some (pos 100)))
          request.snapshot
          (bar 30 9900 10100 10000)).0
signals-IsAllowed_example =
    signals-IsAllowed policy params (omega arith) wants none (some (pos 100)) request.snapshot
      (bar 30 9900 10100 10000)
