-- ===== src/Booking/Invariant/Accepts.antt =====
-- What a command's checks guarantee when they pass.
use event_ticketing_soa.Common.{
  ℕ, ◌≡◌, ◌≢◌, Bool, true, Option, List, ◌⊎◌, ok, arith, length, is_some,
}
use event_ticketing_soa.Common.Text.{Text}
use event_ticketing_soa.Booking.Enums.{
  BookingStatus, PaymentStatus, ReservationEvidenceStatus, CompensationStatus, payment_status,
  reservation_status, booking_status,
}
use event_ticketing_soa.Booking.Rules.{ensure_transition_allowed}
use event_ticketing_soa.Booking.Entity.{
  Booking, attach_reservation_checks, confirm_reservation_checks, start_payment_checks,
  record_payment_checks, attach_tickets_checks, confirm_checks, record_compensation_checks, is_text,
  is_unresolved,
}
use event_ticketing_soa.Booking.Invariant.Defs.{is_seated}

is_text-some : (o : Option Text) (t : Text) → is_text o t ≡ true → is_some o ≡ true
unfolding is_text
is_text-some o t h = ground arith

pub attach_reservation_checks_status :
    (r : Text) (v now : ℕ) (e w : Option ℕ) (c : Bool) (b : Booking) {t : Text}
    → attach_reservation_checks r v now e w c b ≡ ok t
    → (b.status ≡ BookingStatus.pending) ⊎ (b.status ≡ BookingStatus.seat_reserved)
unfolding attach_reservation_checks
attach_reservation_checks_status r v now e w c b h = ground arith

pub confirm_reservation_checks_accepts :
    (r : Text) (v : ℕ) (w : Option ℕ) (b : Booking)
    → confirm_reservation_checks r v w b ≡ ok tt
    → (b.status ≡ BookingStatus.payment_processing)
      × (b.payment_status ≡ PaymentStatus.succeeded)
      × (is_some b.reservation_id ≡ true)
unfolding confirm_reservation_checks is_text
confirm_reservation_checks_accepts r v w b h = ground arith

pub start_payment_checks_accepts :
    (p : Text) (v now : ℕ) (b : Booking) {t : Text}
    → start_payment_checks p v now b ≡ ok t
    → (b.status ≡ BookingStatus.seat_reserved) × (is_seated b.reservation_status ≡ true)
unfolding start_payment_checks
start_payment_checks_accepts p v now b h = ground arith

pub record_payment_checks_accepts :
    (p : Text) (v : ℕ) (s : Option PaymentStatus) (l : Option Bool) (b : Booking)
    → {t : PaymentStatus} → record_payment_checks p v s l b ≡ ok t
    → ((b.status ≡ BookingStatus.payment_processing)
        ⊎ (b.status ≡ BookingStatus.compensation_pending))
      × (is_unresolved b.payment_status ≡ true)
unfolding record_payment_checks is_unresolved
record_payment_checks_accepts p v s l b h = ground arith

pub attach_tickets_checks_accepts :
    (ts : List Text) (v : ℕ) (b : Booking) {t : List Text}
    → attach_tickets_checks ts v b ≡ ok t
    → (b.status ≡ BookingStatus.payment_processing)
      × (b.payment_status ≡ PaymentStatus.succeeded)
      × (b.reservation_status ≡ ReservationEvidenceStatus.confirmed)
      × (length t ≡ length b.items)
unfolding attach_tickets_checks
attach_tickets_checks_accepts ts v b h = ground arith

pub confirm_checks_accepts :
    (v : ℕ) (b : Booking)
    → confirm_checks v b ≡ ok tt
    → (b.status ≡ BookingStatus.payment_processing)
      × (b.reservation_status ≡ ReservationEvidenceStatus.confirmed)
      × (b.payment_status ≡ PaymentStatus.succeeded)
      × (is_some b.payment_id ≡ true)
      × (length b.ticket_ids ≡ length b.items)
unfolding confirm_checks ensure_transition_allowed
confirm_checks_accepts v b h = ground arith

pub record_compensation_checks_accepts :
    (v : ℕ) (s : CompensationStatus) (b : Booking)
    → record_compensation_checks v s b ≡ ok tt
    → (b.status ≡ BookingStatus.compensation_pending) × (s ≢ CompensationStatus.not_required)
unfolding record_compensation_checks
record_compensation_checks_accepts v s b h = ground arith
