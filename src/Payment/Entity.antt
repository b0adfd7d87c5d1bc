-- ===== src/Payment/Entity.antt =====
-- services/payment-service/app/domain/entities.py: the payment aggregate.
mod State
mod Guards
mod Steps
mod Moves
mod Unresolved
mod Refunds
unfoldable pub use State.*
unfoldable pub use Guards.*
unfoldable pub use Steps.*
unfoldable pub use Moves.*
unfoldable pub use Unresolved.*
unfoldable pub use Refunds.*
