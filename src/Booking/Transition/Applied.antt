-- ===== src/Booking/Transition/Applied.antt =====
-- `is_already_applied` of each command: whether the booking records this very outcome already. A
-- command that finds a different outcome recorded raises.
use event_ticketing_soa.Common.{
  ℕ, Bool, true, false, ◌&&◌, ◌||◌, not, Option, none, some, List, [], ◌∷◌, Result, ok, err, ⊤,
  if◌then◌else◌, ltb, ◌==◌, length, one_of, some_and,
}
use event_ticketing_soa.Common.Pure.{◌>>=◌, ◌>>◌, raise_if}
use event_ticketing_soa.Common.Text.{Text}
use event_ticketing_soa.Booking.Enums.{
  BookingStatus, PaymentStatus, ReservationEvidenceStatus, CompensationStatus, booking_status_eq,
  booking_status, payment_status_eq, payment_status, reservation_status_eq, reservation_status,
  compensation_status_eq,
}
use event_ticketing_soa.Booking.Errors.{BookingError, invalid}
use event_ticketing_soa.Booking.Values.{CompensationEvidence}
use event_ticketing_soa.Booking.Entity.{Booking, is_text, texts_eq}

-- `==` on optional times.
abbrev pub is_time : Option ℕ → ℕ → Bool
is_time o t = some_and o (λ x. x == t)

-- `x is False`
abbrev pub is_false : Option Bool → Bool
is_false (some false) = true
is_false _ = false

-- `current_version is None or current_version < v`, where a version `v` is given.
abbrev pub is_behind : Option ℕ → Option ℕ → Bool
is_behind given current = some_and given (λ v. not (some_and current (λ c. not (ltb c v))))

-- `ConfirmBooking._validate_evidence`
unfoldable pub validate_evidence :
    (reservation_id payment_id : Option Text)
    → Option PaymentStatus
    → Option (List Text)
    → (seat_confirmed payment_captured tickets_issued : Option Bool) → Booking
    → Result BookingError ⊤
validate_evidence reservation_id payment_id payment_status ticket_ids seat_confirmed
      payment_captured tickets_issued b =
    do
      raise_if (some_and reservation_id (λ r. not (is_text b.reservation_id r)))
          (invalid "reservationId does not match booking evidence")
      raise_if (some_and payment_id (λ p. not (is_text b.payment_id p)))
          (invalid "paymentId does not match booking evidence")
      raise_if (some_and payment_status (λ p. not (payment_status_eq p b.payment_status)))
          (invalid "paymentStatus does not match booking evidence")
      raise_if (some_and ticket_ids (λ ts. not (texts_eq ts b.ticket_ids)))
          (invalid "ticketIds do not match booking evidence")
      raise_if (is_false seat_confirmed) (invalid "seatConfirmed must be true")
      raise_if (is_false payment_captured) (invalid "paymentCaptured must be true")
      raise_if (is_false tickets_issued) (invalid "ticketsIssued must be true")

-- The statuses that `AttachReservation` accepts as its own outcome.
abbrev pub accepted_statuses : Bool → List ReservationEvidenceStatus
accepted_statuses true =
    ReservationEvidenceStatus.confirmed ∷ ReservationEvidenceStatus.release_pending
    ∷ ReservationEvidenceStatus.released ∷ []
accepted_statuses false =
    ReservationEvidenceStatus.reserved ∷ ReservationEvidenceStatus.confirmed
    ∷ ReservationEvidenceStatus.release_pending ∷ ReservationEvidenceStatus.released ∷ []

unfoldable pub attach_reservation_applied :
    Text → Option ℕ → Option ℕ → Bool → Booking → Result BookingError Bool
attach_reservation_applied reservation_id expires_at reservation_version confirmed b =
    if not (is_text b.reservation_id reservation_id)
    then elim b.reservation_id [
      | none ↦ ok false
      | some _ ↦ err (invalid "Booking already has another reservation")
    ]
    else if not (one_of b.reservation_status (accepted_statuses confirmed))
    then ok false
    else if some_and expires_at (λ t. not (is_time b.reservation_expires_at t))
    then err (invalid "Reservation expiry evidence does not match")
    else if is_behind reservation_version b.reservation_version
    then err (invalid "Reservation version evidence does not match")
    else ok true

unfoldable pub confirm_reservation_applied : Text → Option ℕ → Booking → Result BookingError Bool
confirm_reservation_applied reservation_id reservation_version b =
    if not (is_text b.reservation_id reservation_id)
    then err (invalid "reservationId does not match this booking")
    else if not (
        one_of b.reservation_status (
          ReservationEvidenceStatus.confirmed ∷ ReservationEvidenceStatus.release_pending
          ∷ ReservationEvidenceStatus.released ∷ []))
    then ok false
    else if is_behind reservation_version b.reservation_version
    then err (invalid "Reservation version evidence does not match")
    else ok true

unfoldable pub start_payment_applied : Text → Booking → Result BookingError Bool
start_payment_applied payment_id b =
    if payment_status_eq b.payment_status PaymentStatus.pending
    then ok false
    else if not (is_text b.payment_id payment_id)
    then err (invalid "Booking already has another payment started")
    else ok true

unfoldable pub record_payment_applied :
    Text
    → PaymentStatus
    → (provider_reference failure_code : Option Text) → Booking
    → Result BookingError Bool
record_payment_applied payment_id status provider_reference failure_code b =
    if one_of b.payment_status (PaymentStatus.processing ∷ PaymentStatus.pending ∷ [])
    then ok false
    else if not (is_text b.payment_id payment_id)
    then err (invalid "Booking already records another payment")
    else if not (payment_status_eq b.payment_status status)
    then ok false
    else if some_and provider_reference (λ r. not (is_text b.payment_provider_reference r))
    then err (invalid "Payment provider evidence does not match")
    else if some_and failure_code (λ f. not (is_text b.payment_failure_code f))
    then err (invalid "Payment failure evidence does not match")
    else ok true

unfoldable pub attach_tickets_applied : List Text → Booking → Result BookingError Bool
attach_tickets_applied ticket_ids b =
    if length b.ticket_ids == 0
    then ok false
    else if not (texts_eq b.ticket_ids ticket_ids)
    then err (invalid "Booking already records another ticket set")
    else ok true

unfoldable pub fail_booking_applied :
    Text → Text → Option CompensationStatus → Booking → Result BookingError Bool
fail_booking_applied failure_code reason expected b =
    if not (one_of b.status (BookingStatus.failed ∷ BookingStatus.compensation_pending ∷ []))
    then ok false
    else if not (is_text b.failure_code failure_code) || not (is_text b.failure_reason reason)
    then err (invalid "Booking already records another failure reason")
    else ok (not (some_and expected (λ c. not (compensation_status_eq b.compensation_status c))))

unfoldable pub cancel_booking_applied :
    Text → Option CompensationStatus → Booking → Result BookingError Bool
cancel_booking_applied reason expected b =
    if not (one_of b.status (BookingStatus.cancelled ∷ BookingStatus.compensation_pending ∷ []))
    then ok false
    else if not (is_text b.cancellation_reason reason)
    then err (invalid "Booking already records another cancellation reason")
    else ok (not (some_and expected (λ c. not (compensation_status_eq b.compensation_status c))))

-- `RecordCompensation._evidence_is_recorded`
unfoldable pub evidence_is_recorded : CompensationEvidence → Option Text → Booking → Bool
evidence_is_recorded e reason b =
    not (
      e.reservation_released
      && not (reservation_status_eq b.reservation_status ReservationEvidenceStatus.released))
    && not (e.payment_refunded && not (payment_status_eq b.payment_status PaymentStatus.refunded))
    && not (some_and e.resolved_payment_status (λ p. not (payment_status_eq b.payment_status p)))
    && not (some_and e.provider_reference (λ r. not (is_text b.compensation_provider_reference r)))
    && not (some_and reason (λ t. not (is_text b.compensation_reason t)))

unfoldable pub record_compensation_applied :
    CompensationStatus → CompensationEvidence → Option Text → Booking → Bool
unfolding evidence_is_recorded
record_compensation_applied status e reason b =
    if one_of b.status (BookingStatus.failed ∷ BookingStatus.cancelled ∷ [])
    then compensation_status_eq status CompensationStatus.completed
      && evidence_is_recorded e reason b
    else booking_status_eq b.status BookingStatus.compensation_pending
      && compensation_status_eq b.compensation_status status
      && evidence_is_recorded e reason b

unfoldable pub confirm_booking_applied : Result BookingError ⊤ → Booking → Result BookingError Bool
confirm_booking_applied evidence b =
    if not (booking_status_eq b.status BookingStatus.confirmed)
    then ok false
    else (evidence >>= λ _. ok true)
