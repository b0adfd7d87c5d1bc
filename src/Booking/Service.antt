-- ===== src/Booking/Service.antt =====
-- What holds of the service's commands and of a booking that only they have written.
mod Commands
mod Stale
mod Reached
mod Finality
mod Stranded
mod Tests
pub use Commands.*
pub use Stale.*
pub use Reached.*
pub use Finality.*
pub use Stranded.*
