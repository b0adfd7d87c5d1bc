-- ===== src/Inventory/Retry.antt =====
-- A command that is called again with the same idempotency key.
mod Remembers
mod Commands
mod Conflict
pub use Remembers.*
pub use Commands.*
pub use Conflict.*
