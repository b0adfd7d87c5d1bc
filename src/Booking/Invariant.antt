-- ===== src/Booking/Invariant.antt =====
-- The invariant of a stored booking: what its status says of the payment, the reservation, the
-- tickets and the compensation that is owed.
mod Defs
mod Accepts
mod Obligations
mod Settling
mod Lifecycle
mod Saga
unfoldable pub use Defs.*
pub use Accepts.*
pub use Obligations.*
pub use Settling.*
pub use Lifecycle.*
pub use Saga.*
