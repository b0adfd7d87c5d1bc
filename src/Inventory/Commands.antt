-- ===== src/Inventory/Commands.antt =====
-- services/seat-inventory-service/app/application: the commands and the queries, each on the tables
-- that its transaction has locked.
mod Close
mod Reserve
mod Settle
mod Expire
mod Queries
unfoldable pub use Close.*
unfoldable pub use Reserve.*
unfoldable pub use Settle.*
unfoldable pub use Expire.*
unfoldable pub use Queries.*
