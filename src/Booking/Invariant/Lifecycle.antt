-- ===== src/Booking/Invariant/Lifecycle.antt =====
-- The commands up to confirmation keep the invariant.
use event_ticketing_soa.Common.{
  ℕ, Bool, true, Option, List, arith, Result-cases, inl, inr, ◌≡◌, Ensures, ◌≤◌, is_some, one_of,
  [], ◌∷◌,
}
use event_ticketing_soa.Common.Text.{Text}
use event_ticketing_soa.Booking.Enums.{BookingStatus, PaymentStatus, payment_status}
use event_ticketing_soa.Booking.Frame.{apply_payment_outcome-SameFrame}
use event_ticketing_soa.Booking.Entity.{
  Booking, attach_reservation, confirm_reservation, start_payment, record_payment, attach_tickets,
  confirm, recompute_compensation, apply_payment_outcome, write_payment, attach_reservation_checks,
  start_payment_checks, record_payment_checks, attach_tickets_checks, release_required,
  required_compensation_action,
}
use event_ticketing_soa.Booking.Invariant.Defs.{IsValid}
use event_ticketing_soa.Booking.Invariant.Settling.{
  Keeps, note_action-Keeps, required-IsSettling, IsValid-IsWaiting, IsWaiting, SameFrame-IsWaiting,
}
use event_ticketing_soa.Booking.Invariant.Accepts.{
  attach_reservation_checks_status, confirm_reservation_checks_accepts,
  start_payment_checks_accepts, record_payment_checks_accepts, attach_tickets_checks_accepts,
  confirm_checks_accepts,
}

pub attach_reservation-Keeps :
    (r : Text) (v now : ℕ) (e w : Option ℕ) (c : Bool) (b : Booking)
    → IsValid b
    → Keeps (attach_reservation r v now e w c b)
unfolding attach_reservation
attach_reservation-Keeps r v now e w c b i =
    elim (Result-cases (attach_reservation_checks r v now e w c b)) [
      | inl (t, h) ↦ ground (arith, attach_reservation_checks_status r v now e w c b h)
      | inr (x, h) ↦ ground arith
    ]

pub confirm_reservation-Keeps :
    (r : Text) (v now : ℕ) (w : Option ℕ) (b : Booking)
    → IsValid b
    → Keeps (confirm_reservation r v now w b)
unfolding confirm_reservation
confirm_reservation-Keeps r v now w b i = ground (arith, confirm_reservation_checks_accepts r v w b)

pub start_payment-Keeps :
    (p : Text) (v now : ℕ) (b : Booking) → IsValid b → Keeps (start_payment p v now b)
unfolding start_payment
start_payment-Keeps p v now b i = elim (Result-cases (start_payment_checks p v now b)) [
  | inl (t, h) ↦ ground (arith, start_payment_checks_accepts p v now b h)
  | inr (x, h) ↦ ground arith
]

pub attach_tickets-Keeps :
    (ts : List Text) (v now : ℕ) (b : Booking) → IsValid b → Keeps (attach_tickets ts v now b)
unfolding attach_tickets
attach_tickets-Keeps ts v now b i = elim (Result-cases (attach_tickets_checks ts v b)) [
  | inl (t, h) ↦ ground (arith, attach_tickets_checks_accepts ts v b h)
  | inr (x, h) ↦ ground arith
]

pub confirm-Keeps : (v now : ℕ) (b : Booking) → IsValid b → Keeps (confirm v now b)
unfolding confirm
confirm-Keeps v now b i = ground (arith, confirm_checks_accepts v b)

-- What a recorded outcome makes of the payment.
apply_payment_outcome-outcome :
    (s : PaymentStatus) (now : ℕ) (r f : Option Text) (b : Booking)
    → Ensures
        (λ _ b'.
          (b'.reservation_status ≡ b.reservation_status)
          × (one_of b'.payment_status (
                PaymentStatus.processing ∷ PaymentStatus.succeeded ∷ PaymentStatus.failed
                ∷ PaymentStatus.unknown ∷ [])
              ≡ true))
        (apply_payment_outcome s now r f b)
unfolding apply_payment_outcome
apply_payment_outcome-outcome s now r f b = ground arith

recompute_compensation-Keeps :
    (now : ℕ) (b : Booking)
    → IsWaiting b
    → 1 ≤ b.resource_version
    → (release_required b.reservation_status ≡ true → is_some b.reservation_id ≡ true)
    → Keeps (recompute_compensation now b)
unfolding recompute_compensation required_compensation_action
recompute_compensation-Keeps now b w v n =
    note_action-Keeps (required_compensation_action b) now b w (required-IsSettling b v n)

-- While the payment is processed.
write_payment-Keeps_processing :
    (s : PaymentStatus) (now : ℕ) (r f : Option Text) (b : Booking)
    → b.status ≡ BookingStatus.payment_processing
    → IsValid b
    → Keeps (write_payment s now r f b)
unfolding write_payment
write_payment-Keeps_processing s now r f b h i =
    ground (
      arith,
      apply_payment_outcome-outcome s now r f b,
      apply_payment_outcome-SameFrame s now r f b,
    )

-- While compensation is awaited.
write_payment-Keeps_waiting :
    (s : PaymentStatus) (now : ℕ) (r f : Option Text) (b : Booking)
    → b.status ≡ BookingStatus.compensation_pending
    → IsValid b
    → Keeps (write_payment s now r f b)
unfolding write_payment
write_payment-Keeps_waiting s now r f b h i =
    let b' = (apply_payment_outcome s now r f b).1 in
    let f' = apply_payment_outcome-SameFrame s now r f b in
    let w = SameFrame-IsWaiting b b' f' (IsValid-IsWaiting b h i) in
    ground (
      arith,
      apply_payment_outcome-outcome s now r f b,
      recompute_compensation-Keeps now b' w (rw (f'.resource_version) i.versioned),
    )

pub record_payment-Keeps :
    (p : Text) (v now : ℕ) (s : Option PaymentStatus) (l : Option Bool) (r f : Option Text)
    → (b : Booking) → IsValid b
    → Keeps (record_payment p v now s l r f b)
unfolding record_payment
record_payment-Keeps p v now s l r f b i = elim (Result-cases (record_payment_checks p v s l b)) [
  | inl (t, h) ↦ elim ((record_payment_checks_accepts p v s l b h).0) [
    | inl pp ↦ ground (arith, write_payment-Keeps_processing t now r f b pp i)
    | inr cp ↦ ground (arith, write_payment-Keeps_waiting t now r f b cp i)
  ]
  | inr (x, h) ↦ ground arith
]
