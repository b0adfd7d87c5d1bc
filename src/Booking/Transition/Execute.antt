-- ===== src/Booking/Transition/Execute.antt =====
-- `execute_transition` on the locked row: the command is skipped if it is applied already, and
-- otherwise applied; a raise rolls the transaction back, so the stored booking is as before.
use event_ticketing_soa.Common.{ℕ, Bool, true, false, List, [], ◌∷◌, Result, ok, err, ⊤}
use event_ticketing_soa.Booking.Errors.{BookingError}
use event_ticketing_soa.Booking.Entity.{Booking}
use event_ticketing_soa.Booking.Transition.Defs.{Transition, apply}
use event_ticketing_soa.Booking.Transition.Applied.{
  validate_evidence, attach_reservation_applied, confirm_reservation_applied, start_payment_applied,
  record_payment_applied, attach_tickets_applied, confirm_booking_applied, fail_booking_applied,
  cancel_booking_applied, record_compensation_applied,
}

-- `transition.is_already_applied(booking)`
unfoldable pub is_already_applied : Transition → Booking → Result BookingError Bool
is_already_applied (Transition.attach_reservation r v e w c) b =
    attach_reservation_applied r e w c b
is_already_applied (Transition.confirm_reservation r v w) b = confirm_reservation_applied r w b
is_already_applied (Transition.start_payment p v) b = start_payment_applied p b
is_already_applied (Transition.record_payment p s v r f) b = record_payment_applied p s r f b
is_already_applied (Transition.attach_tickets ts v) b = attach_tickets_applied ts b
is_already_applied (Transition.confirm_booking v r p s ts sc pc ti) b =
    confirm_booking_applied (validate_evidence r p s ts sc pc ti b) b
is_already_applied (Transition.fail_booking c r v s e) b = fail_booking_applied c r s b
is_already_applied (Transition.cancel_booking r v p s e) b = cancel_booking_applied r s b
is_already_applied (Transition.record_compensation v s e r) b =
    ok (record_compensation_applied s e r b)

-- The transaction's end: commit what a call wrote, or keep the row.
abbrev pub commit :
    Booking → Result BookingError ⊤ × Booking → Result BookingError Booking × Booking
commit b (ok _, b') = (ok b', b')
commit b (err e, _) = (err e, b)

-- The response and the stored row.
unfoldable pub execute : Transition → ℕ → Booking → Result BookingError Booking × Booking
execute t now b = elim (is_already_applied t b) [
  | err e ↦ (err e, b)
  | ok true ↦ (ok b, b)
  | ok false ↦ commit b (apply t now b)
]

-- A history of commands, each at its time.
unfoldable pub run : List (Transition × ℕ) → Booking → Booking
run [] b = b
run ((t, now) ∷ ts) b = run ts (execute t now b).1
