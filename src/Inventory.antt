-- ===== src/Inventory.antt =====
-- The seat inventory service: seats, reservations and the commands that hold, sell and free seats.
pub mod Types
pub mod Errors
pub mod Rules
pub mod Tables
pub mod Payload
pub mod Replay
pub mod Commands
pub mod Invariant
pub mod History
pub mod Retry
pub mod SeatIds
pub mod Settling
pub mod Offers
pub mod Executor
mod Tests
