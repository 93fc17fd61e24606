-- ===== src/Positions.antt =====
-- backend/internal/positions and backend/internal/repository/positions.go: the lifecycle of the
-- positions that the user records, and their tables.
pub mod Store
pub mod Repository
pub mod Queries
pub mod Service
pub mod Close
pub mod View
pub mod Atomic
pub mod Opening
pub mod Ledger
pub mod Books
