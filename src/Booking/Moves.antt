-- ===== src/Booking/Moves.antt =====
-- What every command does to the version and the status, whether it succeeds or is refused.
mod Lifecycle
mod Saga
mod Defs
unfoldable pub use Defs.*
pub use Lifecycle.*
pub use Saga.*
