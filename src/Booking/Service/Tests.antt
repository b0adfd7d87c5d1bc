-- ===== src/Booking/Service/Tests.antt =====
-- Histories of one booking, and the theorems at them.
use event_ticketing_soa.Common.{
  one_of, ◌∙◌, ap, err, ℕ, ◌≤◌, ◌≡◌, refl, true, false, none, some, List, [], ◌∷◌, ok, length,
  is_some, arith,
}
use event_ticketing_soa.Common.Text.{codes, strip, matches_identifier, text_eq, mem_text}
use event_ticketing_soa.Booking.Enums.{
  BookingStatus, PaymentStatus, ReservationEvidenceStatus, CompensationStatus, CompensationAction,
  payment_status, reservation_status,
}
use event_ticketing_soa.Booking.Values.{NewBookingRequest, no_evidence}
use event_ticketing_soa.Booking.Rules.{
  validate_identifier, validate_reason, validate_ticket_ids, validate_each_ticket,
  ensure_transition_allowed,
}
use event_ticketing_soa.Booking.Entity.{
  cancel, cancel_checks, cancel_payment_block, apply_cancel_payment_status, requested_outcome,
  apply_resolved_payment, release_required, refund_required, is_unresolved, Booking, from_request,
  attach_reservation, confirm_reservation, start_payment, record_payment, attach_tickets, confirm,
  fail, record_compensation, check_version, attach_reservation_checks, confirm_reservation_checks,
  start_payment_checks, record_payment_checks, attach_tickets_checks, confirm_checks, fail_checks,
  record_compensation_checks, write_payment, apply_payment_outcome, resolve_payment_input, is_text,
  texts_eq, touch, begin_or_complete, settle, begin_compensation, apply_compensation_evidence,
  resolve_payment_block, release_block, refund_block, reference_block, required_compensation_action,
  requirements_satisfied, mark_compensation_pending, note_action, close_compensation,
  complete_compensation, compensation_reason_block, required_action,
}
use event_ticketing_soa.Booking.Transition.{
  cancel_booking_applied, evidence_is_recorded, Transition, apply, execute, run, is_already_applied,
  attach_reservation_applied, confirm_reservation_applied, start_payment_applied,
  record_payment_applied, attach_tickets_applied, confirm_booking_applied, fail_booking_applied,
  record_compensation_applied, validate_evidence,
}
use event_ticketing_soa.Booking.Moves.{Moves}
use event_ticketing_soa.Booking.Invariant.{Keeps}
use event_ticketing_soa.Booking.Service.Commands.{apply-Moves, apply-Keeps}
use event_ticketing_soa.Booking.Service.Stale.{
  Refused, apply_once, execute_stale, stale_reply, carried_evidence,
}
use event_ticketing_soa.Booking.Errors.{BookingError}
use event_ticketing_soa.Booking.Service.Finality.{run-closed, run-resource_version}
use event_ticketing_soa.Booking.Service.Stranded.{IsStranded, run-IsStranded}
use event_ticketing_soa.Booking.Service.Reached.{
  from_request-IsValid, run-owes_nothing, run-confirmed,
}

abbrev request : NewBookingRequest
request = record {
  customer_id = codes "c1";
  event_id = codes "e1";
  reservation_id = none;
  payment_method = none;
  items = record { seat_id = codes "A1"; ticket_type = codes "vip"; unit_price = 2500 } ∷ [];
  total_amount = 2500;
  currency = codes "EUR";
}

abbrev start : Booking
start = record {
  booking_id = codes "b1";
  customer_id = codes "c1";
  event_id = codes "e1";
  items = record { seat_id = codes "A1"; ticket_type = codes "vip"; unit_price = 2500 } ∷ [];
  total_amount = 2500;
  currency = codes "EUR";
  status = BookingStatus.pending;
  payment_status = PaymentStatus.pending;
  reservation_status = ReservationEvidenceStatus.pending;
  compensation_status = CompensationStatus.not_required;
  compensation_action = CompensationAction.none;
  resource_version = 1;
  created_at = 5;
  updated_at = 5;
  reservation_id = none;
  payment_method = none;
  payment_id = none;
  ticket_ids = [];
  failure_code = none;
  failure_reason = none;
  payment_failure_code = none;
  cancellation_reason = none;
  compensation_reason = none;
  intended_terminal_status = none;
  reservation_version = none;
  reservation_expires_at = none;
  payment_provider_reference = none;
  compensation_provider_reference = none;
  confirmed_at = none;
  cancelled_at = none;
  reservation_confirmed_at = none;
  reservation_released_at = none;
  payment_recorded_at = none;
  payment_refunded_at = none;
  compensation_updated_at = none;
  tickets_attached_at = none;
}

from_request-start : from_request (codes " b1") request 5 ≡ ok start
unfolding from_request validate_identifier strip matches_identifier
from_request-start = refl

-- Reserve, pay, confirm the seats, issue the ticket, confirm.
abbrev sale : List (Transition × ℕ)
sale =
    (Transition.attach_reservation (codes "r1") 1 (some 90) none false, 10)
    ∷ (Transition.start_payment (codes "p1") 2, 11)
    ∷ (Transition.record_payment (codes "p1") PaymentStatus.succeeded 3 none none, 12)
    ∷ (Transition.confirm_reservation (codes "r1") 4 none, 13)
    ∷ (Transition.attach_tickets (codes "t1" ∷ []) 5, 14)
    ∷ (Transition.confirm_booking 6 none none none none none none none, 15)
    ∷ []

-- Reserve, fail while the seats are held, and release them.
abbrev compensated : List (Transition × ℕ)
compensated =
    (Transition.attach_reservation (codes "r1") 1 (some 90) none false, 10)
    ∷ (Transition.fail_booking (codes "TIMEOUT") (codes "no answer") 2 none no_evidence, 20)
    ∷ (
      Transition.record_compensation 3 CompensationStatus.completed
          (record no_evidence { reservation_released = true }) none,
      30,
    )
    ∷ []

sale_confirms : (run sale start).status ≡ BookingStatus.confirmed
unfolding run execute is_already_applied apply attach_reservation_applied start_payment_applied
    record_payment_applied confirm_reservation_applied attach_tickets_applied
    confirm_booking_applied validate_evidence attach_reservation start_payment record_payment
    confirm_reservation attach_tickets confirm attach_reservation_checks start_payment_checks
    record_payment_checks confirm_reservation_checks attach_tickets_checks confirm_checks
    check_version is_text texts_eq validate_identifier validate_ticket_ids validate_each_ticket
    strip matches_identifier text_eq mem_text resolve_payment_input write_payment
    apply_payment_outcome ensure_transition_allowed touch
sale_confirms = refl

compensated_fails : (run compensated start).status ≡ BookingStatus.failed
unfolding run execute is_already_applied apply attach_reservation_applied fail_booking_applied
    record_compensation_applied attach_reservation fail record_compensation
    attach_reservation_checks fail_checks record_compensation_checks check_version is_text
    validate_identifier validate_reason strip matches_identifier begin_or_complete
    apply_compensation_evidence resolve_payment_block release_block refund_block reference_block
    required_compensation_action required_action requirements_satisfied settle begin_compensation
    mark_compensation_pending note_action close_compensation complete_compensation
    compensation_reason_block ensure_transition_allowed touch
compensated_fails = refl

run-owes_nothing_example :
    (one_of
        (run compensated start).payment_status
        (PaymentStatus.pending ∷ PaymentStatus.failed ∷ PaymentStatus.refunded ∷ [])
      ≡ true)
    × (one_of
          (run compensated start).reservation_status
          (ReservationEvidenceStatus.pending ∷ ReservationEvidenceStatus.released ∷ [])
        ≡ true)
run-owes_nothing_example =
    run-owes_nothing (codes " b1") request 5 compensated from_request-start (rw compensated_fails)

run-confirmed_example :
    ((run sale start).reservation_status ≡ ReservationEvidenceStatus.confirmed)
    × ((run sale start).payment_status ≡ PaymentStatus.succeeded)
    × (is_some (run sale start).payment_id ≡ true)
    × (length (run sale start).ticket_ids ≡ length (run sale start).items)
run-confirmed_example = run-confirmed (codes " b1") request 5 sale from_request-start sale_confirms

apply-Moves_example : Moves start (apply (Transition.start_payment (codes "p1") 1) 10 start)
apply-Moves_example = apply-Moves (Transition.start_payment (codes "p1") 1) 10 start

apply-Keeps_example :
    Keeps (apply (Transition.attach_reservation (codes "r1") 1 (some 90) none false) 10 start)
apply-Keeps_example =
    apply-Keeps (Transition.attach_reservation (codes "r1") 1 (some 90) none false) 10 start
      (from_request-IsValid (codes " b1") request 5 from_request-start)

-- A command that no one has applied, and one that asks for what is there.
abbrev late : Transition
late = Transition.attach_reservation (codes "r1") 2 (some 90) none false

late-applied : is_already_applied late start ≡ ok false
unfolding is_already_applied attach_reservation_applied is_text
late-applied = refl

execute_stale_example :
    execute late 10 start
    ≡ (stale_reply (is_already_applied late start) (carried_evidence late start) 2 start, start)
execute_stale_example = execute_stale late 10 start (omega arith)

late_conflict : execute late 10 start ≡ (err (BookingError.version_conflict 2 1), start)
late_conflict =
    execute_stale_example ∙ ap (λ r. (stale_reply r (ok tt) 2 start, start)) late-applied

abbrev reserve : Transition
reserve = Transition.attach_reservation (codes "r1") 1 (some 90) none false

abbrev give_up : Transition
give_up = Transition.cancel_booking (codes "changed plans") 1 none none no_evidence

reserve_returns : (apply reserve 10 start).0 ≡ ok tt
unfolding apply attach_reservation attach_reservation_checks check_version is_text
    validate_identifier strip matches_identifier ensure_transition_allowed touch
reserve_returns = refl

apply_once_example :
    Refused (apply reserve 10 start).1 (apply give_up 11 (apply reserve 10 start).1)
apply_once_example = apply_once reserve give_up 10 11 start refl reserve_returns

run-closed_example : let b = run compensated start in (run sale b).status ≡ b.status
run-closed_example = run-closed sale (run compensated start) (rw compensated_fails)

run-resource_version_example :
    (1 ≤ (run sale start).resource_version) × ((run sale start).resource_version ≤ 7)
run-resource_version_example = run-resource_version sale start

-- Cancel before any payment is started, with its outcome unknown; then learn that it succeeded.
abbrev stranding : List (Transition × ℕ)
stranding =
    (
      Transition.cancel_booking (codes "changed plans") 1 (some PaymentStatus.unknown) none
          no_evidence,
      10,
    )
    ∷ (
      Transition.record_compensation 2 CompensationStatus.pending
          (record no_evidence { resolved_payment_status = some PaymentStatus.succeeded }) none,
      11,
    )
    ∷ []

stranding-IsStranded : IsStranded (run stranding start)
unfolding run execute is_already_applied apply cancel_booking_applied record_compensation_applied
    cancel cancel_checks cancel_payment_block apply_cancel_payment_status begin_or_complete settle
    begin_compensation requested_outcome record_compensation record_compensation_checks
    apply_compensation_evidence resolve_payment_block apply_resolved_payment release_block
    refund_block reference_block required_compensation_action required_action requirements_satisfied
    mark_compensation_pending note_action close_compensation complete_compensation
    compensation_reason_block evidence_is_recorded check_version ensure_transition_allowed touch
    validate_reason strip release_required refund_required is_unresolved
stranding-IsStranded = record { waits = refl; owes = refl; unnamed = refl; covered = refl }

run-IsStranded_example : IsStranded (run compensated (run stranding start))
run-IsStranded_example = run-IsStranded compensated (run stranding start) stranding-IsStranded
