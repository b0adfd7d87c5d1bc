-- ===== src/Booking/Entity/Evidence.antt =====
-- The private helpers of the aggregate: what compensation is owed, and how evidence from the other
-- services is written into the booking.
use event_ticketing_soa.Common.{
  ℕ, Bool, true, false, ◌&&◌, not, Option, none, some, List, [], ◌∷◌, ⊤, lift, self, modify,
  raise_if, raise_unless, when, when_some, ◌>>=◌, ◌>>◌, if◌then◌else◌, one_of, value_or, is_some,
}
use event_ticketing_soa.Common.Text.{Text}
use event_ticketing_soa.Booking.Enums.{
  PaymentStatus, ReservationEvidenceStatus, CompensationAction, payment_status_eq, payment_status,
  reservation_status_eq, reservation_status, compensation_action, compensation_action_eq,
}
use event_ticketing_soa.Booking.Errors.{invalid}
use event_ticketing_soa.Booking.Values.{CompensationEvidence}
use event_ticketing_soa.Booking.Rules.{validate_identifier}
use event_ticketing_soa.Booking.Entity.State.{Booking, Method, is_text}

unfoldable pub release_required : ReservationEvidenceStatus → Bool
release_required r = one_of r (
    ReservationEvidenceStatus.reserved ∷ ReservationEvidenceStatus.confirmed
    ∷ ReservationEvidenceStatus.release_pending ∷ ReservationEvidenceStatus.unknown ∷ [])

unfoldable pub refund_required : PaymentStatus → Bool
refund_required p = one_of p (PaymentStatus.succeeded ∷ PaymentStatus.refund_pending ∷ [])

-- A payment whose outcome is open.
unfoldable pub is_unresolved : PaymentStatus → Bool
is_unresolved p = one_of p (PaymentStatus.processing ∷ PaymentStatus.unknown ∷ [])

unfoldable pub required_action : PaymentStatus → ReservationEvidenceStatus → CompensationAction
unfolding release_required refund_required is_unresolved
required_action p r =
    if is_unresolved p
    then CompensationAction.reconcile_payment
    else if release_required r && refund_required p
    then CompensationAction.release_and_refund
    else if release_required r
    then CompensationAction.release_reservation
    else if refund_required p
    then CompensationAction.refund_payment
    else CompensationAction.none

unfoldable pub required_compensation_action : Booking → CompensationAction
required_compensation_action b = required_action b.payment_status b.reservation_status

abbrev pub releases : CompensationAction → Bool
releases a =
    one_of a (CompensationAction.release_reservation ∷ CompensationAction.release_and_refund ∷ [])

abbrev pub refunds : CompensationAction → Bool
refunds a =
    one_of a (CompensationAction.refund_payment ∷ CompensationAction.release_and_refund ∷ [])

-- `_compensation_requirements_satisfied`
unfoldable pub requirements_satisfied : CompensationAction → Booking → Bool
unfolding is_unresolved
requirements_satisfied action b =
    if compensation_action_eq action CompensationAction.reconcile_payment
    then not (is_unresolved b.payment_status)
    else if releases action
        && not (reservation_status_eq b.reservation_status ReservationEvidenceStatus.released)
    then false
    else if refunds action && not (payment_status_eq b.payment_status PaymentStatus.refunded)
    then false
    else true

unfoldable pub mark_compensation_pending : CompensationAction → Method ⊤
mark_compensation_pending action = do
  b ← self
  when
      (releases action
        && not (reservation_status_eq b.reservation_status ReservationEvidenceStatus.released))
      (modify (λ s. record s { reservation_status = ReservationEvidenceStatus.release_pending }))
  when (refunds action && not (payment_status_eq b.payment_status PaymentStatus.refunded))
      (modify (λ s. record s { payment_status = PaymentStatus.refund_pending }))

-- The three writes of `record_compensation` and `record_payment` after the action is computed.
unfoldable pub note_action : CompensationAction → ℕ → Method ⊤
note_action action now = do
  modify (λ s. record s { compensation_action = action })
  mark_compensation_pending action
  modify (λ s. record s { compensation_updated_at = some now })

-- The first block of `_apply_compensation_evidence`.
unfoldable pub apply_resolved_payment : PaymentStatus → Option ℕ → ℕ → Method ⊤
unfolding is_unresolved
apply_resolved_payment resolved verified_at now = do
  b ← self
  raise_if
      (not (is_unresolved b.payment_status) && not (payment_status_eq resolved b.payment_status))
      (invalid "Resolved payment status would regress authoritative evidence")
  raise_unless
      (one_of resolved (
        PaymentStatus.succeeded ∷ PaymentStatus.failed ∷ PaymentStatus.unknown
        ∷ PaymentStatus.refunded ∷ []))
      (invalid "Invalid resolvedPaymentStatus")
  modify (λ s. record s {
    payment_status = resolved;
    payment_recorded_at = some (value_or verified_at now);
  })
  when (not (payment_status_eq resolved PaymentStatus.failed))
      (modify (λ s. record s { payment_failure_code = none }))

-- Its second block.
unfoldable pub apply_release_evidence : Option ℕ → ℕ → Method ⊤
apply_release_evidence verified_at now = do
  b ← self
  raise_unless (is_some b.reservation_id)
      (invalid "Cannot record release evidence without reservationId")
  modify (λ s. record s {
    reservation_status = ReservationEvidenceStatus.released;
    reservation_released_at = some (value_or verified_at now);
  })

-- Its third block.
unfoldable pub apply_refund_evidence : Option ℕ → ℕ → Method ⊤
apply_refund_evidence verified_at now = do
  b ← self
  raise_unless (is_some b.payment_id) (invalid "Cannot record refund evidence without paymentId")
  raise_unless
      (one_of b.payment_status
        (PaymentStatus.succeeded ∷ PaymentStatus.refund_pending ∷ PaymentStatus.refunded ∷ []))
      (invalid "Refund evidence requires a previously successful payment")
  modify (λ s. record s {
    payment_status = PaymentStatus.refunded;
    payment_refunded_at = some (value_or verified_at now);
  })

-- Its last block.
unfoldable pub apply_compensation_reference : Text → Method ⊤
apply_compensation_reference reference = do
  normalized ← lift (validate_identifier reference "providerReference" 128)
  modify (λ s. record s { compensation_provider_reference = some normalized })

-- The blocks under their tests.
unfoldable pub resolve_payment_block : CompensationEvidence → ℕ → Method ⊤
unfolding apply_resolved_payment
resolve_payment_block evidence now =
    when_some evidence.resolved_payment_status
      (λ resolved. apply_resolved_payment resolved evidence.verified_at now)

unfoldable pub release_block : CompensationEvidence → ℕ → Method ⊤
unfolding apply_release_evidence
release_block evidence now =
    when evidence.reservation_released (apply_release_evidence evidence.verified_at now)

unfoldable pub refund_block : CompensationEvidence → ℕ → Method ⊤
unfolding apply_refund_evidence
refund_block evidence now =
    when evidence.payment_refunded (apply_refund_evidence evidence.verified_at now)

unfoldable pub reference_block : CompensationEvidence → Method ⊤
unfolding apply_compensation_reference
reference_block evidence = when_some evidence.provider_reference apply_compensation_reference

unfoldable pub apply_compensation_evidence : CompensationEvidence → ℕ → Method ⊤
apply_compensation_evidence evidence now = do
  resolve_payment_block evidence now
  release_block evidence now
  refund_block evidence now
  reference_block evidence

unfoldable pub record_provider_reference : Text → Method ⊤
unfolding is_text
record_provider_reference reference = do
  normalized ← lift (validate_identifier reference "providerReference" 128)
  b ← self
  raise_if
      (is_some b.payment_provider_reference
        && not (is_text b.payment_provider_reference normalized))
      (invalid "Payment provider evidence does not match")
  modify (λ s. record s { payment_provider_reference = some normalized })

unfoldable pub record_failure_code : PaymentStatus → Option Text → Method ⊤
record_failure_code PaymentStatus.failed (some code) = do
  normalized ← lift (validate_identifier code "failureCode" 128)
  modify (λ s. record s { payment_failure_code = some normalized })
record_failure_code _ _ = modify (λ s. record s { payment_failure_code = none })

unfoldable pub apply_payment_outcome :
    PaymentStatus → ℕ → (provider_reference failure_code : Option Text) → Method ⊤
unfolding record_provider_reference record_failure_code
apply_payment_outcome status now provider_reference failure_code = do
  raise_unless
      (one_of status (PaymentStatus.succeeded ∷ PaymentStatus.failed ∷ PaymentStatus.unknown ∷ []))
      (invalid "paymentStatus must be SUCCEEDED, FAILED or UNKNOWN")
  when_some provider_reference record_provider_reference
  modify (λ s. record s { payment_status = status })
  record_failure_code status failure_code
  modify (λ s. record s { payment_recorded_at = some now })

-- The table of `_apply_cancel_payment_status`.
abbrev pub cancel_payment_table : PaymentStatus → List PaymentStatus
cancel_payment_table PaymentStatus.pending =
    PaymentStatus.pending ∷ PaymentStatus.failed ∷ PaymentStatus.unknown ∷ []
cancel_payment_table PaymentStatus.processing = PaymentStatus.failed ∷ PaymentStatus.unknown ∷ []
cancel_payment_table PaymentStatus.unknown =
    PaymentStatus.unknown ∷ PaymentStatus.failed ∷ PaymentStatus.succeeded ∷ PaymentStatus.refunded
    ∷ []
cancel_payment_table PaymentStatus.succeeded =
    PaymentStatus.succeeded ∷ PaymentStatus.refund_pending ∷ PaymentStatus.refunded ∷ []
cancel_payment_table PaymentStatus.failed = PaymentStatus.failed ∷ []
cancel_payment_table PaymentStatus.refund_pending =
    PaymentStatus.refund_pending ∷ PaymentStatus.refunded ∷ []
cancel_payment_table PaymentStatus.refunded = PaymentStatus.refunded ∷ []

unfoldable pub apply_cancel_payment_status : PaymentStatus → ℕ → Method ⊤
apply_cancel_payment_status new_status now = do
  b ← self
  raise_unless (one_of new_status (cancel_payment_table b.payment_status))
      (invalid "paymentStatus would regress authoritative evidence")
  modify (λ s. record s { payment_status = new_status; payment_recorded_at = some now })
  when (payment_status_eq new_status PaymentStatus.refunded)
      (modify (λ s. record s { payment_refunded_at = some now }))
