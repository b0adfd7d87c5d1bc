-- ===== src/Booking/Moves/Lifecycle.antt =====
-- The commands up to confirmation.
use event_ticketing_soa.Common.{
  ℕ, Bool, true, false, Option, List, arith, Result-cases, inl, inr, ◌≡◌, ok,
}
use event_ticketing_soa.Common.Text.{Text}
use event_ticketing_soa.Booking.Enums.{BookingStatus, PaymentStatus}
use event_ticketing_soa.Booking.Rules.{ensure_transition_allowed}
use event_ticketing_soa.Booking.Frame.{apply_payment_outcome-SameFrame}
use event_ticketing_soa.Booking.Entity.{
  Booking, attach_reservation, confirm_reservation, start_payment, record_payment, attach_tickets,
  confirm, recompute_compensation, apply_payment_outcome, write_payment, record_payment_checks,
  confirm_checks, note_action, mark_compensation_pending,
}
use event_ticketing_soa.Booking.Moves.Defs.{Moves, Advances, follows, follows_refl}

pub attach_reservation-Moves :
    (r : Text) (v now : ℕ) (e w : Option ℕ) (c : Bool) (b : Booking)
    → Moves b (attach_reservation r v now e w c b)
unfolding attach_reservation follows
attach_reservation-Moves r v now e w true b = ground arith
attach_reservation-Moves r v now e w false b = ground arith

pub confirm_reservation-Moves :
    (r : Text) (v now : ℕ) (w : Option ℕ) (b : Booking) → Moves b (confirm_reservation r v now w b)
unfolding confirm_reservation
confirm_reservation-Moves r v now w b = ground (arith, follows_refl b.status)

pub start_payment-Moves : (p : Text) (v now : ℕ) (b : Booking) → Moves b (start_payment p v now b)
unfolding start_payment follows
start_payment-Moves p v now b = ground arith

recompute_compensation-Advances :
    (now : ℕ) (b : Booking) → Advances b (recompute_compensation now b)
unfolding recompute_compensation note_action mark_compensation_pending
recompute_compensation-Advances now b = ground (arith, follows_refl b.status)

write_payment-Moves :
    (s : PaymentStatus) (now : ℕ) (r f : Option Text) (b : Booking)
    → Moves b (write_payment s now r f b)
unfolding write_payment
write_payment-Moves s now r f b = ground (
  arith,
  follows_refl b.status,
  apply_payment_outcome-SameFrame s now r f b,
  recompute_compensation-Advances now (apply_payment_outcome s now r f b).1,
)

pub record_payment-Moves :
    (p : Text) (v now : ℕ) (s : Option PaymentStatus) (l : Option Bool) (r f : Option Text)
    → (b : Booking) → Moves b (record_payment p v now s l r f b)
unfolding record_payment
record_payment-Moves p v now s l r f b = elim (Result-cases (record_payment_checks p v s l b)) [
  | inl (t, h) ↦ ground (arith, write_payment-Moves t now r f b)
  | inr (x, h) ↦ ground arith
]

pub attach_tickets-Moves :
    (ts : List Text) (v now : ℕ) (b : Booking) → Moves b (attach_tickets ts v now b)
unfolding attach_tickets
attach_tickets-Moves ts v now b = ground (arith, follows_refl b.status)

confirm_checks-follows :
    (v : ℕ) (b : Booking)
    → confirm_checks v b ≡ ok tt
    → follows b.status BookingStatus.confirmed ≡ true
unfolding confirm_checks ensure_transition_allowed follows
confirm_checks-follows v b h = ground arith

pub confirm-Moves : (v now : ℕ) (b : Booking) → Moves b (confirm v now b)
unfolding confirm
confirm-Moves v now b = ground (arith, confirm_checks-follows v b)
