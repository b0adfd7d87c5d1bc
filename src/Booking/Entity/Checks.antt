-- ===== src/Booking/Entity/Checks.antt =====
-- The checks with which each command begins, before it writes anything. A command that passes them
-- goes on with the normalised input that they return.
use event_ticketing_soa.Common.{
  ℕ, Bool, true, false, ◌&&◌, not, Option, none, some, List, [], ◌∷◌, Result, ok, err, ⊤,
  if◌then◌else◌, ltb, leb, ◌==◌, length, one_of, is_some, some_and,
}
use event_ticketing_soa.Common.Pure.{◌>>=◌, ◌>>◌, raise_if, raise_unless}
use event_ticketing_soa.Common.Text.{Text}
use event_ticketing_soa.Booking.Enums.{
  BookingStatus, PaymentStatus, ReservationEvidenceStatus, CompensationStatus, booking_status_eq,
  booking_status, payment_status_eq, payment_status, reservation_status_eq, reservation_status,
  compensation_status,
}
use event_ticketing_soa.Booking.Errors.{BookingError, invalid}
use event_ticketing_soa.Booking.Rules.{
  ensure_transition_allowed, validate_identifier, validate_ticket_ids, validate_reason,
}
use event_ticketing_soa.Booking.Entity.State.{Booking, is_text, texts_eq}

unfoldable pub check_version : ℕ → Booking → Result BookingError ⊤
check_version expected_version b =
    raise_unless (b.resource_version == expected_version)
      (BookingError.version_conflict expected_version b.resource_version)

unfoldable pub attach_reservation_checks :
    Text → ℕ → ℕ → Option ℕ → Option ℕ → Bool → Booking → Result BookingError Text
attach_reservation_checks reservation_id expected_version now expires_at reservation_version
      confirmed b =
    do
      check_version expected_version b
      raise_unless (one_of b.status (BookingStatus.pending ∷ BookingStatus.seat_reserved ∷ []))
          (invalid "Reservation evidence can only be attached before payment starts")
      normalized_id ← validate_identifier reservation_id "reservationId" 128
      raise_if (is_some b.reservation_id && not (is_text b.reservation_id normalized_id))
          (invalid "reservationId does not match this booking")
      raise_if (some_and reservation_version (λ v. ltb v 1))
          (invalid "reservationVersion must be at least 1")
      raise_if (some_and expires_at (λ t. leb t now))
          (invalid "reservationExpiresAt must be in the future")
      raise_if (not confirmed && not (is_some expires_at) && not (is_some b.reservation_expires_at))
          (invalid "reservationExpiresAt is required for RESERVED evidence")
      ok normalized_id

unfoldable pub confirm_reservation_checks : Text → ℕ → Option ℕ → Booking → Result BookingError ⊤
confirm_reservation_checks reservation_id expected_version reservation_version b = do
  check_version expected_version b
  raise_if (booking_status_eq b.status BookingStatus.seat_reserved)
      BookingError.missing_payment_evidence
  raise_unless (booking_status_eq b.status BookingStatus.payment_processing)
      (invalid "Reservation confirmation is only valid after payment starts")
  raise_unless (payment_status_eq b.payment_status PaymentStatus.succeeded)
      BookingError.missing_payment_evidence
  normalized_id ← validate_identifier reservation_id "reservationId" 128
  raise_unless (is_text b.reservation_id normalized_id)
      (invalid "reservationId does not match this booking")
  raise_unless
      (one_of b.reservation_status (
        ReservationEvidenceStatus.reserved ∷ ReservationEvidenceStatus.unknown
        ∷ ReservationEvidenceStatus.confirmed ∷ []))
      (invalid "Reservation cannot be confirmed in its current state")
  raise_if (some_and reservation_version (λ v. ltb v 1))
      (invalid "reservationVersion must be at least 1")

unfoldable pub start_payment_checks : Text → ℕ → ℕ → Booking → Result BookingError Text
start_payment_checks payment_id expected_version now b = do
  check_version expected_version b
  raise_unless (booking_status_eq b.status BookingStatus.seat_reserved)
      (invalid "Payment can only start after reservation evidence is attached")
  raise_unless
      (one_of b.reservation_status
        (ReservationEvidenceStatus.reserved ∷ ReservationEvidenceStatus.confirmed ∷ []))
      BookingError.missing_reservation_evidence
  raise_if
      (reservation_status_eq b.reservation_status ReservationEvidenceStatus.reserved
        && some_and b.reservation_expires_at (λ t. leb t now))
      (invalid "Reservation evidence has expired")
  raise_unless (payment_status_eq b.payment_status PaymentStatus.pending)
      (invalid "Payment evidence has already been started")
  validate_identifier payment_id "paymentId" 128

-- `succeeded` as a payment status.
abbrev pub legacy_status : Option Bool → Option PaymentStatus
legacy_status none = none
legacy_status (some true) = some PaymentStatus.succeeded
legacy_status (some false) = some PaymentStatus.failed

-- `_resolve_payment_input`
unfoldable pub resolve_payment_input :
    Option PaymentStatus → Option Bool → Result BookingError PaymentStatus
resolve_payment_input none none = err (invalid "paymentStatus or succeeded is required")
resolve_payment_input none (some true) = ok PaymentStatus.succeeded
resolve_payment_input none (some false) = ok PaymentStatus.failed
resolve_payment_input (some p) succeeded =
    if some_and (legacy_status succeeded) (λ legacy. not (payment_status_eq p legacy))
    then err (invalid "paymentStatus and succeeded disagree")
    else ok p

unfoldable pub record_payment_checks :
    Text → ℕ → Option PaymentStatus → Option Bool → Booking → Result BookingError PaymentStatus
record_payment_checks payment_id expected_version payment_status succeeded b = do
  check_version expected_version b
  resolved_status ← resolve_payment_input payment_status succeeded
  raise_unless
      (one_of b.status (BookingStatus.payment_processing ∷ BookingStatus.compensation_pending ∷ []))
      (invalid "Payment evidence can only be recorded for an active payment workflow")
  raise_if
      (booking_status_eq b.status BookingStatus.compensation_pending
        && not (one_of b.payment_status (PaymentStatus.unknown ∷ PaymentStatus.processing ∷ [])))
      (invalid "Only an unknown payment can be reconciled during compensation")
  raise_unless (one_of b.payment_status (PaymentStatus.processing ∷ PaymentStatus.unknown ∷ []))
      (invalid "Payment outcome has already been recorded")
  normalized_id ← validate_identifier payment_id "paymentId" 128
  raise_unless (is_text b.payment_id normalized_id)
      (invalid "paymentId does not match the started payment")
  ok resolved_status

unfoldable pub attach_tickets_checks : List Text → ℕ → Booking → Result BookingError (List Text)
attach_tickets_checks ticket_ids expected_version b = do
  check_version expected_version b
  raise_unless (booking_status_eq b.status BookingStatus.payment_processing)
      (invalid "Ticket evidence can only be attached while payment is processing")
  raise_unless (payment_status_eq b.payment_status PaymentStatus.succeeded)
      BookingError.missing_payment_evidence
  raise_unless (reservation_status_eq b.reservation_status ReservationEvidenceStatus.confirmed)
      BookingError.missing_reservation_evidence
  normalized ← validate_ticket_ids ticket_ids
  raise_unless (length normalized == length b.items)
      (invalid "Exactly one ticket is required for each booking item")
  raise_if (not (length b.ticket_ids == 0) && not (texts_eq b.ticket_ids normalized))
      (invalid "Ticket evidence has already been attached")
  ok normalized

unfoldable pub confirm_checks : ℕ → Booking → Result BookingError ⊤
confirm_checks expected_version b = do
  check_version expected_version b
  ensure_transition_allowed b.status BookingStatus.confirmed
  raise_unless (reservation_status_eq b.reservation_status ReservationEvidenceStatus.confirmed)
      BookingError.missing_reservation_evidence
  raise_unless (payment_status_eq b.payment_status PaymentStatus.succeeded && is_some b.payment_id)
      BookingError.missing_payment_evidence
  raise_unless (length b.ticket_ids == length b.items) BookingError.missing_ticket_evidence

-- Up to the first write: the code, normalised.
unfoldable pub fail_checks : Text → ℕ → Booking → Result BookingError Text
fail_checks failure_code expected_version b = do
  check_version expected_version b
  raise_unless
      (one_of b.status (
        BookingStatus.pending ∷ BookingStatus.seat_reserved ∷ BookingStatus.payment_processing
        ∷ []))
      (invalid "Only PENDING, SEAT_RESERVED or PAYMENT_PROCESSING bookings can fail")
  validate_identifier failure_code "failureCode" 128

-- Up to the first write: the reason, normalised.
unfoldable pub cancel_checks : Text → ℕ → Booking → Result BookingError Text
cancel_checks reason expected_version b = do
  check_version expected_version b
  raise_unless
      (one_of b.status
        (BookingStatus.pending ∷ BookingStatus.seat_reserved ∷ BookingStatus.confirmed ∷ []))
      (invalid "Only PENDING, SEAT_RESERVED or CONFIRMED bookings can be cancelled")
  validate_reason reason "reason"

unfoldable pub record_compensation_checks : ℕ → CompensationStatus → Booking → Result BookingError ⊤
record_compensation_checks expected_version compensation_status b = do
  check_version expected_version b
  raise_unless (booking_status_eq b.status BookingStatus.compensation_pending)
      (invalid "Compensation results can only be recorded for COMPENSATION_PENDING")
  raise_unless
      (one_of compensation_status (
        CompensationStatus.completed ∷ CompensationStatus.failed ∷ CompensationStatus.pending ∷ []))
      (invalid "Invalid compensationStatus")
