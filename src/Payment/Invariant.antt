-- ===== src/Payment/Invariant.antt =====
-- The invariant of a payment, and that every operation keeps it.
mod Defs
mod Guards
mod Outcomes
mod Refunds
pub use Defs.*
pub use Outcomes.*
pub use Refunds.*
