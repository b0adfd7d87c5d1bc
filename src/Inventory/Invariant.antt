-- ===== src/Inventory/Invariant.antt =====
-- The invariant of the tables, and the writes and commands that keep it.
mod Defs
mod Close
mod Allocate
mod Extend
mod Keeps
mod Settle
mod Reserve
mod Expire
pub use Defs.*
pub use Close.*
pub use Allocate.*
pub use Extend.*
pub use Keeps.*
pub use Settle.*
pub use Reserve.*
pub use Expire.*
