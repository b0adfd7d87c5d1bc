-- ===== src/Booking/Errors.antt =====
-- services/booking-service/app/domain/exceptions.py: the errors that the aggregate raises. An
-- `InvalidRequest` carries its message; a message that names a field, a limit or an identifier is a
-- constructor of its own.
use event_ticketing_soa.Common.{ℕ, String}
use event_ticketing_soa.Common.Text.{Text}
use event_ticketing_soa.Booking.Enums.{BookingStatus, CompensationAction}

pub data Message : Type 0 where
  text : String → Message
  -- "{field} must be 1-{max_length} safe identifier characters"
  unsafe_identifier : String → ℕ → Message
  -- "{field} must be a finite non-negative amount"
  not_an_amount : String → Message
  -- "{field} must have no more than two decimal places"
  too_precise : String → Message
  -- "{field} is outside the supported range"
  out_of_range : String → Message
  -- "{field} must be between 1 and 2000 characters"
  bad_length : String → Message
  -- "Duplicate seatId: {seat_id}"
  duplicate_seat : Text → Message
  -- "Duplicate ticketId: {ticket_id}"
  duplicate_ticket : Text → Message

pub data BookingError : Type 0 where
  invalid_request : Message → BookingError
  booking_not_found : Text → BookingError
  invalid_state_transition : BookingStatus → BookingStatus → BookingError
  version_conflict : ℕ → ℕ → BookingError
  idempotency_conflict : BookingError
  reservation_conflict : Text → BookingError
  missing_reservation_evidence : BookingError
  missing_payment_evidence : BookingError
  missing_ticket_evidence : BookingError
  compensation_evidence_required : CompensationAction → BookingError

abbrev pub invalid : String → BookingError
invalid s = BookingError.invalid_request (Message.text s)
