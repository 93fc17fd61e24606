-- ===== src/Domain.antt =====
-- backend/internal/domain: the typed vocabulary of the application.
pub mod Direction
pub mod RecommendationAction
pub mod ManagementActionType
pub mod RiskLevel
pub mod PositionStatus
pub mod FeeType
pub mod UserDecision
pub mod Kinds
pub mod Timeframe
pub mod Plan
pub mod Position
pub mod Market
pub mod Recommendation
