-- ===== src/Booking/Entity/Saga.antt =====
-- The commands that end a booking without tickets in use: `fail`, `cancel`, and the compensation
-- that must be recorded before either is final.
use event_ticketing_soa.Common.{
  ℕ, Bool, Option, none, some, [], ◌∷◌, Result, ok, err, ⊤, lift, self, modify, raise_unless, when,
  when_some, ◌>>=◌, ◌>>◌, if◌then◌else◌, one_of, value_or,
}
use event_ticketing_soa.Common.Text.{Text}
use event_ticketing_soa.Booking.Enums.{
  BookingStatus, PaymentStatus, CompensationStatus, CompensationAction, booking_status_eq,
  booking_status, compensation_status_eq, compensation_status, compensation_action_eq,
}
use event_ticketing_soa.Booking.Errors.{BookingError, invalid}
use event_ticketing_soa.Booking.Values.{CompensationEvidence, no_evidence}
use event_ticketing_soa.Booking.Rules.{ensure_transition_allowed, validate_reason}
use event_ticketing_soa.Booking.Entity.State.{Booking, Method, touch}
use event_ticketing_soa.Booking.Entity.Checks.{
  fail_checks, cancel_checks, record_compensation_checks,
}
use event_ticketing_soa.Booking.Entity.Evidence.{
  required_compensation_action, requirements_satisfied, mark_compensation_pending, note_action,
  apply_compensation_evidence, apply_cancel_payment_status,
}

-- The end of a branch that reaches `target`.
unfoldable pub complete_transition : BookingStatus → CompensationAction → ℕ → Method ⊤
unfolding ensure_transition_allowed
complete_transition target action now = do
  b ← self
  lift (ensure_transition_allowed b.status target)
  modify (λ s. record s {
    status = target;
    compensation_status =
        if compensation_action_eq action CompensationAction.none
        then CompensationStatus.not_required
        else CompensationStatus.completed;
    compensation_action = action;
    intended_terminal_status = none;
  })
  when (booking_status_eq target BookingStatus.cancelled)
      (modify (λ s. record s { cancelled_at = some now }))

-- The branch that leaves the booking waiting for compensation.
unfoldable pub begin_compensation :
    BookingStatus → CompensationStatus → CompensationAction → Method ⊤
unfolding ensure_transition_allowed
begin_compensation target requested action = do
  raise_unless (one_of requested (CompensationStatus.pending ∷ CompensationStatus.failed ∷ []))
      (invalid "Invalid compensationStatus")
  b ← self
  lift (ensure_transition_allowed b.status BookingStatus.compensation_pending)
  modify (λ s. record s {
    status = BookingStatus.compensation_pending;
    compensation_status = requested;
    compensation_action = action;
    intended_terminal_status = some target;
  })
  mark_compensation_pending action

-- `requested`, with `NOT_REQUIRED` replaced or refused.
unfoldable pub requested_outcome :
    Option CompensationStatus → Bool → CompensationAction → Result BookingError CompensationStatus
requested_outcome none satisfied action =
    ok (if satisfied then CompensationStatus.completed else CompensationStatus.pending)
requested_outcome (some CompensationStatus.not_required) satisfied action =
    if compensation_action_eq action CompensationAction.none
    then ok CompensationStatus.completed
    else err (BookingError.compensation_evidence_required action)
requested_outcome (some requested) satisfied action = ok requested

-- `action`, computed again where the first answer was to reconcile the payment.
abbrev pub settled_action : CompensationAction → Booking → CompensationAction
settled_action action b =
    if compensation_action_eq action CompensationAction.reconcile_payment
    then required_compensation_action b
    else action

-- The two branches of `_begin_or_complete_terminal_transition`.
unfoldable pub settle :
    BookingStatus → Option CompensationStatus → CompensationAction → Bool → ℕ → Method ⊤
unfolding requested_outcome
settle target requested_status action satisfied now = do
  requested ← lift (requested_outcome requested_status satisfied action)
  if compensation_status_eq requested CompensationStatus.completed
      then (raise_unless satisfied (BookingError.compensation_evidence_required action)
          >> complete_transition target action now)
      else begin_compensation target requested action

-- `_begin_or_complete_terminal_transition`
unfoldable pub begin_or_complete :
    BookingStatus → Option CompensationStatus → CompensationEvidence → ℕ → Method ⊤
unfolding touch
begin_or_complete target requested_status evidence now = do
  b ← self
  apply_compensation_evidence evidence now
  b' ← self
  let action = settled_action (required_compensation_action b) b'
  settle target requested_status action (requirements_satisfied action b') now
  modify (λ s. record s { compensation_updated_at = some now })
  touch now

unfoldable pub fail :
    (failure_code reason : Text)
    → ℕ
    → ℕ
    → Option CompensationStatus
    → Option CompensationEvidence
    → Method ⊤
fail failure_code reason expected_version now compensation_status evidence = do
  b ← self
  code ← lift (fail_checks failure_code expected_version b)
  modify (λ s. record s { failure_code = some code })
  text ← lift (validate_reason reason "reason")
  modify (λ s. record s { failure_reason = some text })
  begin_or_complete BookingStatus.failed compensation_status (value_or evidence no_evidence) now

-- `if payment_status is not None: self._apply_cancel_payment_status(...)`
unfoldable pub cancel_payment_block : Option PaymentStatus → ℕ → Method ⊤
unfolding apply_cancel_payment_status
cancel_payment_block payment_status now =
    when_some payment_status (λ p. apply_cancel_payment_status p now)

unfoldable pub cancel :
    Text
    → ℕ
    → ℕ
    → Option PaymentStatus
    → Option CompensationStatus
    → Option CompensationEvidence
    → Method ⊤
cancel reason expected_version now payment_status compensation_status evidence = do
  b ← self
  text ← lift (cancel_checks reason expected_version b)
  modify (λ s. record s { cancellation_reason = some text })
  cancel_payment_block payment_status now
  begin_or_complete BookingStatus.cancelled compensation_status (value_or evidence no_evidence) now

-- The target that the booking waits for.
unfoldable pub intended_target : Option BookingStatus → Result BookingError BookingStatus
intended_target (some BookingStatus.failed) = ok BookingStatus.failed
intended_target (some BookingStatus.cancelled) = ok BookingStatus.cancelled
intended_target _ = err (invalid "Compensation target is missing")

-- `if reason is not None: ...`
unfoldable pub compensation_reason_block : Option Text → Method ⊤
compensation_reason_block none = modify (λ s. s)
compensation_reason_block (some reason) = do
  text ← lift (validate_reason reason "compensationReason")
  modify (λ s. record s { compensation_reason = some text })

-- The `COMPLETED` branch of `record_compensation`.
unfoldable pub complete_compensation : CompensationAction → ℕ → Method ⊤
unfolding requirements_satisfied intended_target ensure_transition_allowed
complete_compensation action now = do
  b ← self
  raise_unless (requirements_satisfied action b)
      (BookingError.compensation_evidence_required action)
  target ← lift (intended_target b.intended_terminal_status)
  lift (ensure_transition_allowed b.status target)
  modify (λ s. record s {
    status = target;
    compensation_status = CompensationStatus.completed;
    intended_terminal_status = none;
  })
  when (booking_status_eq target BookingStatus.cancelled)
      (modify (λ s. record s { cancelled_at = some now }))

-- The last block of `record_compensation`.
unfoldable pub close_compensation : CompensationStatus → CompensationAction → ℕ → Method ⊤
close_compensation compensation_status action now =
    if compensation_status_eq compensation_status CompensationStatus.completed
    then complete_compensation action now
    else modify (λ s. record s { compensation_status = compensation_status })

unfoldable pub record_compensation :
    ℕ → ℕ → CompensationStatus → CompensationEvidence → Option Text → Method ⊤
unfolding touch
record_compensation expected_version now compensation_status evidence reason = do
  b ← self
  lift (record_compensation_checks expected_version compensation_status b)
  compensation_reason_block reason
  apply_compensation_evidence evidence now
  b' ← self
  let action = settled_action b.compensation_action b'
  note_action action now
  close_compensation compensation_status action now
  touch now
