-- ===== src/Inventory/Errors.antt =====
-- services/seat-inventory-service/app/domain/exceptions.py. A message that names a value is a
-- constructor of its own.
use event_ticketing_soa.Common.{ℕ, String, List}
use event_ticketing_soa.Common.Text.{Text}

pub data Message : Type 0 where
  text : String → Message
  -- "{field_name} must be 1-128 safe identifier characters"
  unsafe_identifier : String → Message
  -- "{field} must be between {minimum} and {maximum}"
  not_between : String → ℕ → ℕ → Message

pub data SeatInventoryError : Type 0 where
  invalid_request : Message → SeatInventoryError
  seat_not_found seat_unavailable : List Text → SeatInventoryError
  reservation_not_found reservation_expired : Text → SeatInventoryError
  invalid_reservation_state : Text → String → SeatInventoryError
  version_conflict : ℕ → ℕ → SeatInventoryError
  idempotency_conflict : SeatInventoryError
  -- "Booking {booking_id} already owns a different reservation"
  inventory_conflict : Text → SeatInventoryError
  -- What is no error of the domain: a failed `assert`, a value that does not parse, an insert that a
  -- primary key refuses, and an insert of a text that is too long for its column.
  assertion_error value_error integrity_error data_error : SeatInventoryError
  dependency_unavailable : SeatInventoryError

abbrev pub invalid : String → SeatInventoryError
invalid s = SeatInventoryError.invalid_request (Message.text s)
