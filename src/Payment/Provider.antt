-- ===== src/Payment/Provider.antt =====
-- What a payment provider reports, applied to a payment.
mod Outcome
mod Guards
mod Apply
mod Once
mod Twice
mod Tests
unfoldable pub use Outcome.*
unfoldable pub use Guards.*
unfoldable pub use Apply.*
pub use Twice.*
