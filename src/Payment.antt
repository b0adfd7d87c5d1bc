-- ===== src/Payment.antt =====
-- The payment service: the payment aggregate, its rules, and what is proved of them.
pub mod Enums
pub mod Errors
pub mod Rules
pub mod Values
pub mod Entity
pub mod Minor
pub mod Drafts
pub mod Invariant
pub mod Ledger
pub mod Provider
