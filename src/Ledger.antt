-- ===== src/Ledger.antt =====
-- backend/src/ledger: the double-entry ledger.
mod Input
mod Validator
mod Accounts
mod Posting
mod Queries
pub mod Amounts
pub mod Validated
pub mod Invariant
pub mod Opening
pub mod Keys
pub mod Ensured
pub mod TwoLines
pub mod Carried
pub mod Pools
mod Lookup
mod Deltas
mod Effect
pub mod Posted
pub use Input.*
unfoldable pub use Validator.*
unfoldable pub use Accounts.*
unfoldable pub use Posting.*
unfoldable pub use Queries.*
