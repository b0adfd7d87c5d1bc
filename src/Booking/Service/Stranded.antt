-- ===== src/Booking/Service/Stranded.antt =====
-- Bookings that owe a refund for a payment whose identifier they lack.
use event_ticketing_soa.Common.{ℕ, ◌≡◌, true, none, Option, List, [], ◌∷◌, Result, arith, Ensures}
use event_ticketing_soa.Common.Text.{Text}
use event_ticketing_soa.Booking.Enums.{
  BookingStatus, PaymentStatus, CompensationAction, CompensationStatus,
}
use event_ticketing_soa.Booking.Errors.{BookingError}
use event_ticketing_soa.Booking.Values.{CompensationEvidence}
use event_ticketing_soa.Booking.Rules.{ensure_transition_allowed}
use event_ticketing_soa.Booking.Transition.{Transition, apply, execute, run}
use event_ticketing_soa.Booking.Entity.{
  Booking, refunds, resolve_payment_block, release_block, refund_block, reference_block,
  apply_compensation_evidence, record_compensation, compensation_reason_block, note_action,
  settled_action, attach_reservation, confirm_reservation, start_payment, record_payment,
  attach_tickets, confirm, fail, cancel, attach_reservation_checks, confirm_reservation_checks,
  start_payment_checks, record_payment_checks, attach_tickets_checks, confirm_checks, fail_checks,
  cancel_checks, mark_compensation_pending, close_compensation, complete_compensation,
  requirements_satisfied, touch,
}

-- The booking waits for the refund of a payment whose identifier it does not have.
pub record IsStranded (b : Booking) : Type 0 where
  pub waits : b.status ≡ BookingStatus.compensation_pending
  pub owes : b.payment_status ≡ PaymentStatus.refund_pending
  pub unnamed : b.payment_id ≡ none
  pub covered : refunds b.compensation_action ≡ true

abbrev Stays : {A : Type 0} → Result BookingError A × Booking → Type 0
Stays = Ensures (λ _ b. IsStranded b)

resolve_payment_block-Stays :
    (e : CompensationEvidence) (now : ℕ) (b : Booking)
    → IsStranded b
    → Stays (resolve_payment_block e now b)
unfolding resolve_payment_block
resolve_payment_block-Stays e now b i = ground (arith, i)

release_block-Stays :
    (e : CompensationEvidence) (now : ℕ) (b : Booking)
    → IsStranded b
    → Stays (release_block e now b)
unfolding release_block
release_block-Stays e now b i = ground (arith, i)

refund_block-Stays :
    (e : CompensationEvidence) (now : ℕ) (b : Booking) → IsStranded b → Stays (refund_block e now b)
unfolding refund_block
refund_block-Stays e now b i = ground (arith, i)

reference_block-Stays :
    (e : CompensationEvidence) (b : Booking) → IsStranded b → Stays (reference_block e b)
unfolding reference_block
reference_block-Stays e b i = ground (arith, i)

apply_compensation_evidence-Stays :
    (e : CompensationEvidence) (now : ℕ) (b : Booking)
    → IsStranded b
    → Stays (apply_compensation_evidence e now b)
unfolding apply_compensation_evidence
apply_compensation_evidence-Stays e now b i =
    let b1 = (resolve_payment_block e now b).1 in
    let b2 = (release_block e now b1).1 in
    let b3 = (refund_block e now b2).1 in
    ground (
      arith,
      resolve_payment_block-Stays e now b i,
      release_block-Stays e now b1,
      refund_block-Stays e now b2,
      reference_block-Stays e b3,
    )

close_compensation-Stays :
    (s : CompensationStatus) (a : CompensationAction) (now : ℕ) (b : Booking)
    → refunds a ≡ true
    → IsStranded b
    → Stays (close_compensation s a now b)
unfolding close_compensation complete_compensation requirements_satisfied
close_compensation-Stays s a now b h i = ground (arith, i)

note_action-Stays :
    (a : CompensationAction) (now : ℕ) (b : Booking)
    → refunds a ≡ true
    → IsStranded b
    → Stays (note_action a now b)
unfolding note_action mark_compensation_pending
note_action-Stays a now b h i = ground (arith, i)

compensation_reason_block-Stays :
    (r : Option Text) (b : Booking) → IsStranded b → Stays (compensation_reason_block r b)
unfolding compensation_reason_block
compensation_reason_block-Stays r b i = ground (arith, i)

record_compensation-Stays :
    (v now : ℕ) (s : CompensationStatus) (e : CompensationEvidence) (r : Option Text) (b : Booking)
    → IsStranded b
    → Stays (record_compensation v now s e r b)
unfolding record_compensation touch
record_compensation-Stays v now s e r b i =
    let b1 = (compensation_reason_block r b).1 in
    let b2 = (apply_compensation_evidence e now b1).1 in
    let a = settled_action b.compensation_action b2 in
    let b3 = (note_action a now b2).1 in
    ground (
      arith,
      i.covered,
      compensation_reason_block-Stays r b i,
      apply_compensation_evidence-Stays e now b1,
      note_action-Stays a now b2,
      close_compensation-Stays s a now b3,
    )

apply-Stays : (t : Transition) (now : ℕ) (b : Booking) → IsStranded b → Stays (apply t now b)
unfolding apply attach_reservation confirm_reservation start_payment record_payment attach_tickets
    confirm fail cancel attach_reservation_checks confirm_reservation_checks start_payment_checks
    record_payment_checks attach_tickets_checks confirm_checks fail_checks cancel_checks
    ensure_transition_allowed
apply-Stays (Transition.attach_reservation r v e w c) now b i = ground (arith, i)
apply-Stays (Transition.confirm_reservation r v w) now b i = ground (arith, i)
apply-Stays (Transition.start_payment p v) now b i = ground (arith, i)
apply-Stays (Transition.record_payment p s v r f) now b i = ground (arith, i)
apply-Stays (Transition.attach_tickets ts v) now b i = ground (arith, i)
apply-Stays (Transition.confirm_booking v r p s ts sc pc ti) now b i = ground (arith, i)
apply-Stays (Transition.fail_booking c r v s e) now b i = ground (arith, i)
apply-Stays (Transition.cancel_booking r v p s e) now b i = ground (arith, i)
apply-Stays (Transition.record_compensation v s e r) now b i =
    record_compensation-Stays v now s e r b i

execute-IsStranded :
    (t : Transition) (now : ℕ) (b : Booking) → IsStranded b → IsStranded (execute t now b).1
unfolding execute
execute-IsStranded t now b i = ground (arith, i, apply-Stays t now b i)

-- A booking that waits for the refund of a payment whose identifier it never had waits for ever:
-- it is still COMPENSATION_PENDING after any commands, and still owes the refund.
pub run-IsStranded :
    (ts : List (Transition × ℕ)) (b : Booking) → IsStranded b → IsStranded (run ts b)
unfolding run
run-IsStranded [] b i = i
run-IsStranded ((t, now) ∷ ts) b i =
    run-IsStranded ts (execute t now b).1 (execute-IsStranded t now b i)
