-- ===== src/Inventory/History.antt =====
-- Sequences of requests to the seat inventory service, each in a transaction of its own.
mod Requests
mod Valid
mod Spec
mod Moves
unfoldable pub use Requests.*
pub use Valid.*
pub use Spec.*
pub use Moves.*
