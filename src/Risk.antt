-- ===== src/Risk.antt =====
-- backend/internal/risk/engine.go: the deterministic risk engine.
pub mod Input
pub mod Readings
pub mod Leverage
pub mod Sizing
pub mod Engine
pub mod Range
pub mod Lowers
pub mod StopLoss
pub mod NewsCap
