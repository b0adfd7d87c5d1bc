-- ===== src/Booking/Transition.antt =====
-- services/booking-service/app/application/commands: the nine commands on an existing booking, with
-- the fields that each carries after validation, what it does to the aggregate, how it knows that
-- it has been applied before, and the transaction in which it runs.
mod Applied
mod Defs
mod Execute
unfoldable pub use Defs.*
unfoldable pub use Applied.*
unfoldable pub use Execute.*
