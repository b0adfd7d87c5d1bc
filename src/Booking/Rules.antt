-- ===== src/Booking/Rules.antt =====
-- services/booking-service/app/domain/rules.py: validation and normalisation of what a caller
-- sends, and the transition table. Hashing and the lock's number are not modelled.
mod Tables
unfoldable pub use Tables.*
