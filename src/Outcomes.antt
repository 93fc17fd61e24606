-- ===== src/Outcomes.antt =====
-- backend/internal/recommendations/outcomes.go: what the market did after a recommendation.
pub mod Hits
pub mod Prices
pub mod Evaluate
pub mod Walk
pub mod Consistency
pub mod Later
