-- ===== src/Booking.antt =====
-- The booking service: the aggregate (`Entity`), the commands that the service runs on it
-- (`Transition`), and what is proved of both.
pub mod Enums
pub mod Errors
pub mod Values
pub mod Rules
pub mod Entity
pub mod Transition
pub mod Frame
pub mod Moves
pub mod Invariant
pub mod Service
