-- ===== src/Payment/Provider/Outcome.antt =====
-- services/payment-service/app/application/provider_outcomes.py: an outcome, and its validation.
use event_ticketing_soa.Common.{
  ℕ, true, ◌||◌, not, Option, none, some, List, [], ◌∷◌, Result, ok, ⊤, if◌then◌else◌, one_of,
  is_some, length, ◌==◌,
}
use event_ticketing_soa.Common.Pure.{◌>>=◌, ◌>>◌, raise_if, raise_unless}
use event_ticketing_soa.Common.Text.{Text}
use event_ticketing_soa.Common.Money.{Decimal}
use event_ticketing_soa.Payment.Enums.{
  PaymentStatus, ProviderOperation, ProviderOutcomeSource, status,
}
use event_ticketing_soa.Payment.Errors.{PaymentError, Message, invalid}
use event_ticketing_soa.Payment.Rules.{
  validate_identifier, validate_optional_identifier, validate_money, validate_reason,
}

-- The amount is a `Decimal` as it is reported, and in cents once it is validated.
pub record ProviderOutcome (Amount : Type 0) : Type 0 where
  pub status : PaymentStatus
  pub operation : ProviderOperation
  pub source : ProviderOutcomeSource
  pub provider_reference : Option Text
  pub provider_refund_reference : Option Text
  pub refunded_amount : Option Amount
  pub failure_code : Option Text
  pub reason : Option Text
  pub occurred_at : Option ℕ

abbrev pub refund_states : List PaymentStatus
refund_states = PaymentStatus.partially_refunded ∷ PaymentStatus.refunded ∷ []

abbrev pub captured_or_later : List PaymentStatus
captured_or_later = PaymentStatus.captured ∷ refund_states

abbrev pub authorized_or_later : List PaymentStatus
authorized_or_later = PaymentStatus.authorized ∷ captured_or_later

abbrev pub final_provider_statuses : List PaymentStatus
final_provider_statuses =
    PaymentStatus.authorized ∷ PaymentStatus.captured ∷ PaymentStatus.failed
    ∷ PaymentStatus.cancelled ∷ refund_states

abbrev pub operation_outcomes : ProviderOperation → List PaymentStatus
operation_outcomes ProviderOperation.authorize =
    PaymentStatus.authorized ∷ PaymentStatus.failed ∷ []
operation_outcomes ProviderOperation.capture = PaymentStatus.captured ∷ PaymentStatus.failed ∷ []
operation_outcomes ProviderOperation.cancel = PaymentStatus.cancelled ∷ []
operation_outcomes ProviderOperation.refund = refund_states

-- `f(value) if value else None`, of an optional text.
unfoldable pub validate_given :
    (Text → Result PaymentError Text) → Option Text → Result PaymentError (Option Text)
validate_given f none = ok none
validate_given f (some t) =
    if length t == 0 then ok none else (f t >>= λ normalized. ok (some normalized))

-- `if refunded_amount is not None: ...`
unfoldable pub validate_observed : Option Decimal → Result PaymentError (Option ℕ)
validate_observed none = ok none
validate_observed (some value) =
    validate_money value "observedRefundedAmount" true >>= λ cents. ok (some cents)

unfoldable pub validate_outcome_fields : ProviderOutcome ℕ → Result PaymentError ⊤
validate_outcome_fields o =
    if one_of o.status (PaymentStatus.authorized ∷ PaymentStatus.captured ∷ [])
    then (do
      raise_unless (is_some o.provider_reference)
          (invalid "providerReference is required for this outcome")
      raise_if
          (is_some o.provider_refund_reference
            || is_some o.refunded_amount
            || is_some o.failure_code
            || is_some o.reason)
          (invalid "Provider outcome contains unrelated fields"))
    else if one_of o.status (PaymentStatus.failed ∷ [])
    then (do
      raise_if (not (is_some o.failure_code) || not (is_some o.reason))
          (invalid "failureCode and reason are required for FAILED")
      raise_if (is_some o.provider_refund_reference || is_some o.refunded_amount)
          (invalid "FAILED cannot include refund fields"))
    else if one_of o.status (PaymentStatus.cancelled ∷ [])
    then (do
      raise_unless (is_some o.reason) (invalid "reason is required for CANCELLED")
      raise_if
          (is_some o.failure_code
            || is_some o.provider_refund_reference
            || is_some o.refunded_amount)
          (invalid "CANCELLED contains unrelated outcome fields"))
    else if one_of o.status refund_states
    then (do
      raise_if (not (is_some o.provider_refund_reference) || not (is_some o.refunded_amount)) (
          invalid
            "providerRefundReference and observedRefundedAmount are required for a refund outcome")
      raise_if (is_some o.failure_code) (invalid "A refund outcome cannot include failureCode"))
    else ok tt

unfoldable pub normalize_outcome : ProviderOutcome Decimal → Result PaymentError (ProviderOutcome ℕ)
unfolding validate_given validate_observed validate_outcome_fields
normalize_outcome o = do
  raise_unless (one_of o.status final_provider_statuses)
      (invalid "providerStatus is not a final provider outcome")
  provider_reference ← validate_optional_identifier o.provider_reference "providerReference" 128
  refund_reference ←
      validate_optional_identifier o.provider_refund_reference "providerRefundReference" 128
  refunded_amount ← validate_observed o.refunded_amount
  failure_code ← validate_given (λ t. validate_identifier t "failureCode" 128) o.failure_code
  reason ← validate_given (λ t. validate_reason t "reason") o.reason
  raise_unless (one_of o.status (operation_outcomes o.operation))
      (PaymentError.invalid_request (Message.cannot_produce o.operation o.status))
  let normalized : ProviderOutcome ℕ = record {
    status = o.status;
    operation = o.operation;
    source = o.source;
    provider_reference = provider_reference;
    provider_refund_reference = refund_reference;
    refunded_amount = refunded_amount;
    failure_code = failure_code;
    reason = reason;
    occurred_at = o.occurred_at;
  }
  validate_outcome_fields normalized
  ok normalized
