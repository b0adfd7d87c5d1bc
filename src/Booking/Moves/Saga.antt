-- ===== src/Booking/Moves/Saga.antt =====
-- The commands that fail, cancel and compensate.
use event_ticketing_soa.Common.{ℕ, Bool, Option, some, arith, Result-cases, inl, inr, value_or, ◌≡◌}
use event_ticketing_soa.Common.Text.{Text}
use event_ticketing_soa.Booking.Enums.{
  BookingStatus, PaymentStatus, CompensationStatus, CompensationAction,
}
use event_ticketing_soa.Booking.Values.{CompensationEvidence, no_evidence}
use event_ticketing_soa.Booking.Rules.{validate_reason}
use event_ticketing_soa.Booking.Frame.{
  apply_compensation_evidence-SameFrame, cancel_payment_block-SameFrame,
  compensation_reason_block-SameFrame,
}
use event_ticketing_soa.Booking.Entity.{
  Booking, mark_compensation_pending, apply_compensation_evidence, begin_or_complete, fail, cancel,
  record_compensation, complete_transition, begin_compensation, settle, settled_action,
  complete_compensation, required_compensation_action, requirements_satisfied, fail_checks,
  cancel_checks, cancel_payment_block, compensation_reason_block, note_action, close_compensation,
}
use event_ticketing_soa.Booking.Moves.Defs.{Moves, Advances, follows, follows_refl}

complete_transition-Advances :
    (t : BookingStatus) (a : CompensationAction) (now : ℕ) (b : Booking)
    → Advances b (complete_transition t a now b)
unfolding complete_transition follows
complete_transition-Advances t a now b = ground arith

begin_compensation-Advances :
    (t : BookingStatus) (s : CompensationStatus) (a : CompensationAction) (b : Booking)
    → Advances b (begin_compensation t s a b)
unfolding begin_compensation mark_compensation_pending follows
begin_compensation-Advances t s a b = ground arith

settle-Advances :
    (t : BookingStatus) (s : Option CompensationStatus) (a : CompensationAction) (sat : Bool)
    → (now : ℕ) (b : Booking) → Advances b (settle t s a sat now b)
unfolding settle
settle-Advances t s a sat now b = ground (
  arith,
  complete_transition-Advances t a now b,
  begin_compensation-Advances t CompensationStatus.pending a b,
  begin_compensation-Advances t CompensationStatus.failed a b,
)

pub begin_or_complete-Moves :
    (t : BookingStatus) (s : Option CompensationStatus) (e : CompensationEvidence) (now : ℕ)
    → (b : Booking) → Moves b (begin_or_complete t s e now b)
unfolding begin_or_complete
begin_or_complete-Moves t s e now b =
    let b' = (apply_compensation_evidence e now b).1 in
    let a = settled_action (required_compensation_action b) b' in
    ground (
      arith,
      apply_compensation_evidence-SameFrame e now b,
      settle-Advances t s a (requirements_satisfied a b') now b',
    )

pub fail-Moves :
    (c r : Text) (v now : ℕ) (s : Option CompensationStatus) (e : Option CompensationEvidence)
    → (b : Booking) → Moves b (fail c r v now s e b)
unfolding fail
fail-Moves c r v now s e b = elim (Result-cases (fail_checks c v b)) [
  | inl (code, hc) ↦ elim (Result-cases (validate_reason r "reason")) [
    | inl (text, ht) ↦ ground (
      arith,
      begin_or_complete-Moves BookingStatus.failed s (value_or e no_evidence) now
          (record b { failure_code = some code; failure_reason = some text }),
    )
    | inr (x, hx) ↦ ground arith
  ]
  | inr (x, hx) ↦ ground arith
]

pub cancel-Moves :
    (r : Text) (v now : ℕ) (p : Option PaymentStatus) (s : Option CompensationStatus)
    → (e : Option CompensationEvidence) (b : Booking) → Moves b (cancel r v now p s e b)
unfolding cancel
cancel-Moves r v now p s e b = elim (Result-cases (cancel_checks r v b)) [
  | inl (text, ht) ↦
      let b' = record b { cancellation_reason = some text } in
      ground (
        arith,
        cancel_payment_block-SameFrame p now b',
        begin_or_complete-Moves BookingStatus.cancelled s (value_or e no_evidence) now
            (cancel_payment_block p now b').1,
      )
  | inr (x, hx) ↦ ground arith
]

complete_compensation-Advances :
    (a : CompensationAction) (now : ℕ) (b : Booking) → Advances b (complete_compensation a now b)
unfolding complete_compensation follows
complete_compensation-Advances a now b = ground arith

close_compensation-Advances :
    (s : CompensationStatus) (a : CompensationAction) (now : ℕ) (b : Booking)
    → Advances b (close_compensation s a now b)
unfolding close_compensation
close_compensation-Advances s a now b =
    ground (arith, complete_compensation-Advances a now b, follows_refl b.status)

-- The rest of the frame is not kept: the action is written.
note_action-status :
    (a : CompensationAction) (now : ℕ) (b : Booking)
    → ((note_action a now b).1.status ≡ b.status)
      × ((note_action a now b).1.resource_version ≡ b.resource_version)
unfolding note_action mark_compensation_pending
note_action-status a now b = ground arith

pub record_compensation-Moves :
    (v now : ℕ) (s : CompensationStatus) (e : CompensationEvidence) (r : Option Text) (b : Booking)
    → Moves b (record_compensation v now s e r b)
unfolding record_compensation
record_compensation-Moves v now s e r b =
    let b₁ = (compensation_reason_block r b).1 in
    let b₂ = (apply_compensation_evidence e now b₁).1 in
    let a = settled_action b.compensation_action b₂ in
    let b₃ = (note_action a now b₂).1 in
    ground (
      arith,
      compensation_reason_block-SameFrame r b,
      apply_compensation_evidence-SameFrame e now b₁,
      note_action-status a now b₂,
      close_compensation-Advances s a now b₃,
    )
