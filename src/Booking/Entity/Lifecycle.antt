-- ===== src/Booking/Entity/Lifecycle.antt =====
-- The commands that carry a booking from `PENDING` to `CONFIRMED`: each makes its checks and then
-- writes.
use event_ticketing_soa.Common.{
  ℕ, Bool, true, false, Option, none, some, List, ⊤, lift, self, modify, when, ◌>>=◌, ◌>>◌, or_else,
}
use event_ticketing_soa.Common.Text.{Text}
use event_ticketing_soa.Booking.Enums.{
  BookingStatus, PaymentStatus, ReservationEvidenceStatus, CompensationStatus, CompensationAction,
  booking_status_eq,
}
use event_ticketing_soa.Booking.Rules.{ensure_transition_allowed}
use event_ticketing_soa.Booking.Entity.State.{Method, touch}
use event_ticketing_soa.Booking.Entity.Checks.{
  attach_reservation_checks, confirm_reservation_checks, start_payment_checks,
  record_payment_checks, attach_tickets_checks, confirm_checks,
}
use event_ticketing_soa.Booking.Entity.Evidence.{
  apply_payment_outcome, required_compensation_action, note_action,
}

abbrev pub attached_status : Bool → ReservationEvidenceStatus
attached_status true = ReservationEvidenceStatus.confirmed
attached_status false = ReservationEvidenceStatus.reserved

unfoldable pub attach_reservation : Text → ℕ → ℕ → Option ℕ → Option ℕ → Bool → Method ⊤
unfolding ensure_transition_allowed touch
attach_reservation reservation_id expected_version now expires_at reservation_version confirmed = do
  b ← self
  normalized_id ← lift (
      attach_reservation_checks reservation_id expected_version now expires_at reservation_version
        confirmed b)
  modify (λ s. record s {
    reservation_id = some normalized_id;
    reservation_expires_at = or_else expires_at s.reservation_expires_at;
    reservation_version = or_else reservation_version s.reservation_version;
    reservation_status = attached_status confirmed;
  })
  when confirmed (
      modify (λ s. record s {
        reservation_confirmed_at = or_else s.reservation_confirmed_at (some now);
      }))
  when (booking_status_eq b.status BookingStatus.pending) (
      lift (ensure_transition_allowed b.status BookingStatus.seat_reserved)
      >> modify (λ s. record s { status = BookingStatus.seat_reserved }))
  touch now

unfoldable pub confirm_reservation : Text → ℕ → ℕ → Option ℕ → Method ⊤
unfolding touch
confirm_reservation reservation_id expected_version now reservation_version = do
  b ← self
  lift (confirm_reservation_checks reservation_id expected_version reservation_version b)
  modify (λ s. record s {
    reservation_version = or_else reservation_version s.reservation_version;
    reservation_status = ReservationEvidenceStatus.confirmed;
    reservation_confirmed_at = or_else s.reservation_confirmed_at (some now);
  })
  touch now

unfoldable pub start_payment : Text → ℕ → ℕ → Method ⊤
unfolding ensure_transition_allowed touch
start_payment payment_id expected_version now = do
  b ← self
  normalized_id ← lift (start_payment_checks payment_id expected_version now b)
  modify
      (λ s. record s { payment_id = some normalized_id; payment_status = PaymentStatus.processing })
  lift (ensure_transition_allowed b.status BookingStatus.payment_processing)
  modify (λ s. record s { status = BookingStatus.payment_processing })
  touch now

-- The block of `record_payment` for a booking that waits for compensation.
unfoldable pub recompute_compensation : ℕ → Method ⊤
recompute_compensation now = do b ← self; note_action (required_compensation_action b) now

-- `record_payment` once its checks have passed.
unfoldable pub write_payment :
    PaymentStatus → ℕ → (provider_reference failure_code : Option Text) → Method ⊤
unfolding touch
write_payment resolved_status now provider_reference failure_code = do
  b ← self
  apply_payment_outcome resolved_status now provider_reference failure_code
  when (booking_status_eq b.status BookingStatus.compensation_pending) (recompute_compensation now)
  touch now

unfoldable pub record_payment :
    Text
    → ℕ
    → ℕ
    → Option PaymentStatus
    → Option Bool
    → (provider_reference failure_code : Option Text) → Method ⊤
record_payment payment_id expected_version now payment_status succeeded provider_reference
      failure_code =
    do
      b ← self
      resolved_status ←
          lift (record_payment_checks payment_id expected_version payment_status succeeded b)
      write_payment resolved_status now provider_reference failure_code

unfoldable pub attach_tickets : List Text → ℕ → ℕ → Method ⊤
unfolding touch
attach_tickets ticket_ids expected_version now = do
  b ← self
  normalized ← lift (attach_tickets_checks ticket_ids expected_version b)
  modify (λ s. record s {
    ticket_ids = normalized;
    tickets_attached_at = or_else s.tickets_attached_at (some now);
  })
  touch now

unfoldable pub confirm : ℕ → ℕ → Method ⊤
unfolding touch
confirm expected_version now = do
  b ← self
  lift (confirm_checks expected_version b)
  modify (λ s. record s {
    status = BookingStatus.confirmed;
    compensation_status = CompensationStatus.not_required;
    compensation_action = CompensationAction.none;
    intended_terminal_status = none;
    confirmed_at = some now;
  })
  touch now
