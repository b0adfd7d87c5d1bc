-- ===== src/Payment/Entity/Guards.antt =====
-- The guards of the outcomes, up to the first write of each operation.
use event_ticketing_soa.Common.{
  ℕ, ◌+◌, Bool, false, ◌&&◌, not, Option, some, [], ◌∷◌, Result, ok, err, ⊤, if◌then◌else◌, one_of,
  some_and, ltb, ◌==◌,
}
use event_ticketing_soa.Common.Pure.{◌>>=◌, ◌>>◌, raise_if, raise_unless}
use event_ticketing_soa.Common.Money.{Decimal}
use event_ticketing_soa.Payment.Enums.{PaymentStatus, ProviderOperation, status, status_eq}
use event_ticketing_soa.Payment.Errors.{PaymentError, invalid}
use event_ticketing_soa.Payment.Rules.{ensure_transition_allowed, validate_money}
use event_ticketing_soa.Payment.Entity.State.{Payment, check_version, prepare_resolution}

-- The guards of an outcome that leads to `target`.
unfoldable pub outcome_checks :
    PaymentStatus → ℕ → Option ProviderOperation → Bool → Payment → Result PaymentError ⊤
outcome_checks target expected_version operation reconciled p =
    prepare_resolution expected_version operation reconciled p >>= λ current.
    ensure_transition_allowed current target

-- `Payment must be authorized before capture`
unfoldable pub direct_capture : Bool → PaymentStatus → Result PaymentError ⊤
direct_capture allow_direct current =
    if status_eq current PaymentStatus.pending && not allow_direct
    then err (invalid "Payment must be authorized before capture")
    else ensure_transition_allowed current PaymentStatus.captured

unfoldable pub capture_checks : ℕ → Bool → Bool → Payment → Result PaymentError ⊤
unfolding direct_capture
capture_checks expected_version allow_direct reconciled p =
    prepare_resolution expected_version (some ProviderOperation.capture) reconciled p
    >>= direct_capture allow_direct

unfoldable pub unknown_checks : PaymentStatus → Result PaymentError ⊤
unknown_checks s =
    if one_of s (PaymentStatus.failed ∷ PaymentStatus.cancelled ∷ PaymentStatus.refunded ∷ [])
    then err (invalid "A terminal payment cannot become UNKNOWN")
    else ensure_transition_allowed s PaymentStatus.unknown

unfoldable pub reconciliation_checks : ℕ → ℕ → Option ℕ → Payment → Result PaymentError ⊤
unfolding check_version
reconciliation_checks expected_version now next_due_at p =
    check_version expected_version p
    >> raise_unless (status_eq p.status PaymentStatus.unknown)
        (invalid "Only an UNKNOWN payment can remain unreconciled")
    >> raise_if (some_and next_due_at (λ t. ltb t now))
        (invalid "next reconciliation time cannot be in the past")

-- The status after a refund, where `remaining` is `captured - refunded`.
abbrev pub refund_target : (captured refunded refund_amount : ℕ) → PaymentStatus
refund_target captured refunded refund_amount =
    if refunded + refund_amount == captured
    then PaymentStatus.refunded
    else PaymentStatus.partially_refunded

-- `if current not in {CAPTURED, PARTIALLY_REFUNDED}: ensure_transition_allowed(...)`
unfoldable pub refundable_checks : PaymentStatus → Result PaymentError ⊤
refundable_checks current =
    if one_of current (PaymentStatus.captured ∷ PaymentStatus.partially_refunded ∷ [])
    then ok tt
    else ensure_transition_allowed current PaymentStatus.refunded

-- The amount against what is left of the captured amount, and the step to the target.
unfoldable pub amount_checks :
    PaymentStatus → (captured refunded refund_amount : ℕ) → Result PaymentError ⊤
amount_checks current captured refunded refund_amount =
    if ltb captured (refunded + refund_amount)
    then err (invalid "refundAmount cannot exceed the unrefunded captured amount")
    else ensure_transition_allowed current (refund_target captured refunded refund_amount)

-- The guards, up to the first write, with the amount in cents.
unfoldable pub refund_checks : Decimal → ℕ → Bool → Payment → Result PaymentError ℕ
refund_checks amount expected_version reconciled p = do
  current ← prepare_resolution expected_version (some ProviderOperation.refund) reconciled p
  refundable_checks current
  refund_amount ← validate_money amount "refundAmount" false
  amount_checks current p.captured_amount p.refunded_amount refund_amount
  ok refund_amount
