-- ===== src/Trading.antt =====
-- backend/src/trading: orders against the platform, and the worker that fills limit orders.
mod Pair
mod OrderMath
mod Orders
mod Worker
pub mod Holds
pub mod Placed
pub mod Filled
pub mod Closed
pub mod Cancelled
unfoldable pub use Pair.*
unfoldable pub use OrderMath.*
unfoldable pub use Orders.*
unfoldable pub use Worker.*
