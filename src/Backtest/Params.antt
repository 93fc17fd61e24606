-- ===== src/Backtest/Params.antt =====
-- backend/internal/domain/backtest.go and the types of backend/internal/backtesting: the parameters of a
-- run, its trades and executions, and a position under simulation. Of BacktestParams the fields that the
-- replay reads, except those that only the strategies or the model read; of a trade all fields but its
-- ids and the votes of the strategies, which the replay only stores.
use crypto_market_advisor.Base.{ℕ, ◌/◌, String, Bool, Option, List}
use crypto_market_advisor.Base.Int.{ℤ}
use crypto_market_advisor.Domain.Timeframe.{Time}
use crypto_market_advisor.Domain.Direction.{Direction}
use crypto_market_advisor.Domain.FeeType.{FeeType}
use crypto_market_advisor.Domain.Plan.{PriceTarget}

pub data BacktestMode : Type 0 where
  technical llm : BacktestMode

pub data BacktestExitMode : Type 0 where
  signal_levels pnl_ladder trailing_atr : BacktestExitMode
  other : String → BacktestExitMode

pub record PnlExitStep (F : Type 0) : Type 0 where
  pub pnl_pct : F
  pub close_pct : F

pub record BacktestParams (D F : Type 0) : Type 0 where
  pub date_from : Time
  pub analysis_interval : String
  pub initial_capital : D
  pub allocation_pct : D
  pub leverage : D
  pub slippage_pct : D
  pub maker_fee_pct : D
  pub taker_fee_pct : D
  pub funding_rate_pct : D
  pub maintenance_margin_pct : D
  pub max_open_positions : ℤ
  pub min_confidence : ℤ
  pub break_even_after_tp : Bool
  pub exit_mode : BacktestExitMode
  pub trailing_atr_mult : D
  pub take_profit_ladder : List (PnlExitStep F)
  pub stop_loss_ladder : List (PnlExitStep F)
  pub atr_stop_mult : D
  pub atr_target1_mult : D
  pub atr_target2_mult : D
  pub atr_target1_close_pct : D
  pub entry_pullback_atr : D
  pub entry_valid_bars : ℤ

pub record BacktestExecution (D F : Type 0) : Type 0 where
  pub kind : String
  pub executed_at : Time
  pub price : D
  pub quantity : D
  pub close_pct : F
  pub gross_pnl : D
  pub fee : D
  pub funding : D
  pub fee_type : FeeType

pub record BacktestTrade (D F : Type 0) : Type 0 where
  pub symbol : String
  pub direction : Direction
  pub opened_at : Time
  pub closed_at : Option Time
  pub entry_price : D
  pub exit_price : Option D
  pub quantity : D
  pub leverage : D
  pub allocation_pct : D
  pub gross_pnl : D
  pub fees : D
  pub funding : D
  pub net_pnl : D
  pub pnl_pct : F
  pub mfe_pct : Option F
  pub mae_pct : Option F
  pub exit_reason : String
  pub confidence : ℤ
  pub executions : List (BacktestExecution D F)

pub record EquityPoint (F : Type 0) : Type 0 where
  pub time : Time
  pub equity : F

-- `openTrade`, a position under simulation.
pub record OpenTrade (D F : Type 0) : Type 0 where
  pub trade : BacktestTrade D F
  pub take_profit : List (PriceTarget F)
  pub stop_loss : List (PriceTarget F)
  pub entry_price : F
  pub original_qty : D
  pub remaining_qty : D
  pub initial_margin : D
  pub gross_pnl : D
  pub fees : D
  pub funding : D
  pub exit_notional : D
  pub exited_qty : D
  pub executions : List (BacktestExecution D F)
  pub next_funding_at : Time
  pub break_even : Bool
  pub trail_atr : F
  pub peak : F
  pub mfe : F
  pub mae : F

-- `signalResult`, one decision taken at a simulated point in time.
pub record SignalResult (D F : Type 0) : Type 0 where
  pub direction : Direction
  pub reference : F
  pub confidence : ℤ
  pub leverage : ℤ
  pub allocation_pct : D
  pub take_profit : List (PriceTarget F)
  pub stop_loss : List (PriceTarget F)
  pub atr : F

-- The key of a time in a map of `Unix()`, in seconds. The model counts them from the year 1, which is
-- the same test of equality.
abbrev pub unix : Time → ℕ
unix t = t / 1_000_000_000
