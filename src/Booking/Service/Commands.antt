-- ===== src/Booking/Service/Commands.antt =====
-- What holds of every command, whichever it is.
use event_ticketing_soa.Common.{ℕ, arith, some, none}
use event_ticketing_soa.Booking.Entity.{Booking}
use event_ticketing_soa.Booking.Transition.{Transition, apply}
use event_ticketing_soa.Booking.Moves.{
  Moves, attach_reservation-Moves, confirm_reservation-Moves, start_payment-Moves,
  record_payment-Moves, attach_tickets-Moves, confirm-Moves, fail-Moves, cancel-Moves,
  record_compensation-Moves,
}
use event_ticketing_soa.Booking.Invariant.{
  IsValid, Keeps, attach_reservation-Keeps, confirm_reservation-Keeps, start_payment-Keeps,
  record_payment-Keeps, attach_tickets-Keeps, confirm-Keeps, fail-Keeps, cancel-Keeps,
  record_compensation-Keeps,
}

-- Every command that returns raises the version by one and moves the status along the transition
-- table or leaves it; every command that raises leaves version and status alone, whatever else it
-- has written.
pub apply-Moves : (t : Transition) (now : ℕ) (b : Booking) → Moves b (apply t now b)
unfolding apply
apply-Moves (Transition.attach_reservation r v e w c) now b =
    attach_reservation-Moves r v now e w c b
apply-Moves (Transition.confirm_reservation r v w) now b = confirm_reservation-Moves r v now w b
apply-Moves (Transition.start_payment p v) now b = start_payment-Moves p v now b
apply-Moves (Transition.record_payment p s v r f) now b =
    record_payment-Moves p v now (some s) none r f b
apply-Moves (Transition.attach_tickets ts v) now b = attach_tickets-Moves ts v now b
apply-Moves (Transition.confirm_booking v r p s ts sc pc ti) now b =
    ground (arith, confirm-Moves v now b)
apply-Moves (Transition.fail_booking c r v s e) now b = fail-Moves c r v now s (some e) b
apply-Moves (Transition.cancel_booking r v p s e) now b = cancel-Moves r v now p s (some e) b
apply-Moves (Transition.record_compensation v s e r) now b = record_compensation-Moves v now s e r b

-- Every command that returns keeps the invariant.
pub apply-Keeps : (t : Transition) (now : ℕ) (b : Booking) → IsValid b → Keeps (apply t now b)
unfolding apply
apply-Keeps (Transition.attach_reservation r v e w c) now b i =
    attach_reservation-Keeps r v now e w c b i
apply-Keeps (Transition.confirm_reservation r v w) now b i = confirm_reservation-Keeps r v now w b i
apply-Keeps (Transition.start_payment p v) now b i = start_payment-Keeps p v now b i
apply-Keeps (Transition.record_payment p s v r f) now b i =
    record_payment-Keeps p v now (some s) none r f b i
apply-Keeps (Transition.attach_tickets ts v) now b i = attach_tickets-Keeps ts v now b i
apply-Keeps (Transition.confirm_booking v r p s ts sc pc ti) now b i =
    ground (arith, confirm-Keeps v now b i)
apply-Keeps (Transition.fail_booking c r v s e) now b i = fail-Keeps c r v now s (some e) b i
apply-Keeps (Transition.cancel_booking r v p s e) now b i = cancel-Keeps r v now p s (some e) b i
apply-Keeps (Transition.record_compensation v s e r) now b i =
    record_compensation-Keeps v now s e r b i
