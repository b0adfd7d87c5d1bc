-- ===== src/Payment/Provider/Guards.antt =====
-- services/payment-service/app/application/provider_outcomes.py: what is looked at before an outcome
-- is applied, with the queries of infrastructure/database/repositories.py.
use event_ticketing_soa.Common.{
  ℕ, Bool, true, false, ◌||◌, ◌&&◌, not, Option, none, some, List, [], ◌∷◌, Result, ok, err, ⊤,
  if◌then◌else◌, one_of, some_and, ◌==◌,
}
use event_ticketing_soa.Common.Pure.{◌>>=◌, ◌>>◌, raise_if, raise_unless}
use event_ticketing_soa.Common.Rows.{first}
use event_ticketing_soa.Common.Text.{Text, text_eq}
use event_ticketing_soa.Payment.Enums.{PaymentStatus, status_eq, status}
use event_ticketing_soa.Payment.Errors.{PaymentError, invalid}
use event_ticketing_soa.Payment.Values.{Refund}
use event_ticketing_soa.Payment.Entity.{Payment, reference_eq, provider_reference_matches}
use event_ticketing_soa.Payment.Provider.Outcome.{
  ProviderOutcome, refund_states, captured_or_later, authorized_or_later,
}

-- RefundModel
pub record RefundRow : Type 0 where
  pub provider : Text
  pub refund : Refund

-- The rows that the session finds.
pub record Rows : Type 0 where
  pub payments : List Payment
  pub refunds : List RefundRow

unfoldable pub get_payment_by_provider_reference : Rows → Text → Text → Option Payment
get_payment_by_provider_reference rows provider reference =
    first
      (λ p. text_eq p.provider provider && some_and p.provider_reference (λ r. text_eq r reference))
      rows.payments

unfoldable pub get_refund_by_provider_reference : Rows → Text → Text → Option RefundRow
get_refund_by_provider_reference rows provider reference =
    first (λ r. text_eq r.provider provider && text_eq r.refund.provider_reference reference)
      rows.refunds

unfoldable pub ensure_payment_provider_reference_available :
    Rows → Payment → Option Text → Result PaymentError ⊤
ensure_payment_provider_reference_available rows p none = ok tt
ensure_payment_provider_reference_available rows p (some reference) =
    raise_if
      (some_and (get_payment_by_provider_reference rows p.provider reference)
        (λ existing. not (text_eq existing.payment_id p.payment_id)))
      PaymentError.provider_reference_conflict

-- `_ensure_reference`
unfoldable pub ensure_reference : Payment → Option Text → Result PaymentError ⊤
ensure_reference p reference = provider_reference_matches reference p >>= λ same.
    raise_unless same (invalid "Provider reference does not match local payment")

-- `reference is not None and not payment.provider_reference_matches(reference)`
unfoldable pub is_other_reference : Payment → Option Text → Result PaymentError Bool
is_other_reference p none = ok false
is_other_reference p (some reference) =
    provider_reference_matches (some reference) p >>= λ same. ok (not same)

-- Another outcome than the one that the payment records.
unfoldable pub is_other_failure : Payment → ProviderOutcome ℕ → Result PaymentError Bool
unfolding is_other_reference
is_other_failure p o =
    if not (reference_eq p.failure_code o.failure_code)
      || not (reference_eq p.failure_reason o.reason)
    then ok true
    else is_other_reference p o.provider_reference

unfoldable pub is_other_cancellation : Payment → ProviderOutcome ℕ → Result PaymentError Bool
unfolding is_other_reference
is_other_cancellation p o =
    if not (reference_eq p.cancellation_reason o.reason)
    then ok true
    else is_other_reference p o.provider_reference

-- The payment is in the outcome's status.
unfoldable pub is_recorded : Payment → ProviderOutcome ℕ → Result PaymentError Bool
unfolding is_other_failure is_other_cancellation
is_recorded p o =
    if one_of o.status (PaymentStatus.authorized ∷ PaymentStatus.captured ∷ [])
    then (ensure_reference p o.provider_reference >> ok true)
    else if status_eq o.status PaymentStatus.failed
    then (is_other_failure p o >>= λ other.
        raise_if other (invalid "Payment already records another failure outcome") >> ok true)
    else if status_eq o.status PaymentStatus.cancelled
    then (is_other_cancellation p o >>= λ other.
        raise_if other (invalid "Payment already records another cancellation") >> ok true)
    else if one_of o.status refund_states
    then ok (some_and o.refunded_amount (λ n. n == p.refunded_amount))
    else ok true

unfoldable pub is_noop : Payment → ProviderOutcome ℕ → Result PaymentError Bool
unfolding is_recorded
is_noop p o =
    if (status_eq o.status PaymentStatus.authorized && one_of p.status authorized_or_later)
      || (status_eq o.status PaymentStatus.captured && one_of p.status captured_or_later)
    then (ensure_reference p o.provider_reference >> ok true)
    else if not (status_eq p.status o.status)
    then ok false
    else is_recorded p o

unfoldable pub guard_reference : Payment → Option Text → Result PaymentError ⊤
unfolding ensure_reference
guard_reference p none = ok tt
guard_reference p (some reference) = ensure_reference p (some reference)

-- The refund that uses the reference already.
unfoldable pub guard_existing :
    Payment → ProviderOutcome ℕ → Option RefundRow → Result PaymentError ⊤
guard_existing p o none = ok tt
guard_existing p o (some existing) =
    raise_unless (text_eq existing.refund.payment_id p.payment_id)
      PaymentError.provider_reference_conflict
    >> raise_unless (some_and o.refunded_amount (λ n. n == p.refunded_amount))
        PaymentError.provider_reference_conflict

unfoldable pub guard_refund_outcome : Rows → Payment → ProviderOutcome ℕ → Result PaymentError ⊤
unfolding guard_reference guard_existing
guard_refund_outcome rows p o = do
  guard_reference p o.provider_reference
  elim o.provider_refund_reference [
    | none ↦ err PaymentError.attribute_error
    | some reference ↦
        guard_existing p o (get_refund_by_provider_reference rows p.provider reference)
  ]
