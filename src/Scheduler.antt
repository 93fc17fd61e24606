-- ===== src/Scheduler.antt =====
-- backend/internal/scheduler: the background work, and the analyses that a user asks for.
pub mod Guard
pub mod Queue
pub mod System
pub mod Turns
pub mod Cooldown
pub mod Boundary
pub mod Order
