-- ===== src/Backtest.antt =====
-- backend/internal/backtesting: the replay of historical candles.
pub mod Params
pub mod Levels
pub mod State
pub mod Exits
pub mod Update
pub mod Entries
pub mod Kept
pub mod Visible
pub mod Loop
pub mod Ledger
pub mod Fate
pub mod Account
pub mod Opening
pub mod Rounds
pub mod Steps
pub mod Conserved
pub mod Causal
pub mod LookAhead
pub mod Capacity
pub mod Clock
pub mod Signals
pub mod Allowed
pub mod Metrics
pub mod Counts
