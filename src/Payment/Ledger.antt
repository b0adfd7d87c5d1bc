-- ===== src/Payment/Ledger.antt =====
-- The operations of a payment as data, each on the stored payment, and histories of them.
mod Operations
mod Stale
mod Receipts
mod Captured
mod Tests
pub use Operations.*
pub use Stale.*
pub use Receipts.*
pub use Captured.*
