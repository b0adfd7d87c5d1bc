-- ===== src/Booking/Service/Reached.antt =====
-- Histories of commands, and what every booking that they reach satisfies.
use event_ticketing_soa.Common.{ℕ, ◌≡◌, true, List, [], ◌∷◌, ok, arith, length, is_some, one_of}
use event_ticketing_soa.Common.Text.{Text}
use event_ticketing_soa.Booking.Enums.{
  BookingStatus, PaymentStatus, ReservationEvidenceStatus, payment_status, reservation_status,
}
use event_ticketing_soa.Booking.Values.{NewBookingRequest}
use event_ticketing_soa.Booking.Entity.{Booking, from_request, release_required}
use event_ticketing_soa.Booking.Transition.{Transition, execute, run}
use event_ticketing_soa.Booking.Invariant.{
  IsValid, is_closing, is_settled_payment, is_settled_reservation, owes_nothing,
}
use event_ticketing_soa.Booking.Service.Commands.{apply-Keeps}

pub from_request-IsValid :
    (id : Text) (r : NewBookingRequest) (now : ℕ) {b : Booking}
    → from_request id r now ≡ ok b
    → IsValid b
unfolding from_request release_required
from_request-IsValid id r now h = ground arith

pub execute-IsValid :
    (t : Transition) (now : ℕ) (b : Booking) → IsValid b → IsValid (execute t now b).1
unfolding execute
execute-IsValid t now b i = ground (arith, apply-Keeps t now b i)

pub run-IsValid : (ts : List (Transition × ℕ)) (b : Booking) → IsValid b → IsValid (run ts b)
unfolding run
run-IsValid [] b i = i
run-IsValid ((t, now) ∷ ts) b i = run-IsValid ts (execute t now b).1 (execute-IsValid t now b i)

closed :
    (s : Booking)
    → IsValid s
    → is_closing s.status ≡ true
    → (is_settled_payment s.payment_status ≡ true)
      × (is_settled_reservation s.reservation_status ≡ true)
unfolding owes_nothing
closed s i k = ground arith

-- A booking that was created and that any commands have brought to FAILED or CANCELLED has no money
-- and no seat: its payment is PENDING, FAILED or REFUNDED, and its reservation PENDING or RELEASED.
pub run-owes_nothing :
    (id : Text) (r : NewBookingRequest) (created : ℕ) {b : Booking} (ts : List (Transition × ℕ))
    → from_request id r created ≡ ok b
    → is_closing (run ts b).status ≡ true
    → (one_of
          (run ts b).payment_status
          (PaymentStatus.pending ∷ PaymentStatus.failed ∷ PaymentStatus.refunded ∷ [])
        ≡ true)
      × (one_of
            (run ts b).reservation_status
            (ReservationEvidenceStatus.pending ∷ ReservationEvidenceStatus.released ∷ [])
          ≡ true)
run-owes_nothing id r created {b} ts h c =
    closed (run ts b) (run-IsValid ts b (from_request-IsValid id r created h)) c

-- A booking that was created and that any commands have brought to CONFIRMED has a confirmed
-- reservation, a successful payment with its identifier, and a ticket for each item.
pub run-confirmed :
    (id : Text) (r : NewBookingRequest) (created : ℕ) {b : Booking} (ts : List (Transition × ℕ))
    → from_request id r created ≡ ok b
    → (run ts b).status ≡ BookingStatus.confirmed
    → ((run ts b).reservation_status ≡ ReservationEvidenceStatus.confirmed)
      × ((run ts b).payment_status ≡ PaymentStatus.succeeded)
      × (is_some (run ts b).payment_id ≡ true)
      × (length (run ts b).ticket_ids ≡ length (run ts b).items)
run-confirmed id r created {b} ts h c =
    complete (run ts b) (run-IsValid ts b (from_request-IsValid id r created h)) c
  where
    complete :
        (s : Booking)
        → IsValid s
        → s.status ≡ BookingStatus.confirmed
        → (s.reservation_status ≡ ReservationEvidenceStatus.confirmed)
          × (s.payment_status ≡ PaymentStatus.succeeded)
          × (is_some s.payment_id ≡ true)
          × (length s.ticket_ids ≡ length s.items)
    complete s i k = ground arith
