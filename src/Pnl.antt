-- ===== src/Pnl.antt =====
-- backend/internal/pnl: position accounting for USDT linear perpetuals.
mod Compute
mod Close
mod Open
pub mod Sums
pub mod Order
pub mod Bounds
pub mod Fees
pub mod Sizes
unfoldable pub use Compute.*
unfoldable pub use Close.*
unfoldable pub use Open.*
