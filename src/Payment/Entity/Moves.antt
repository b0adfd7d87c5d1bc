-- ===== src/Payment/Entity/Moves.antt =====
-- The outcomes that authorize, capture, fail and cancel a payment.
use event_ticketing_soa.Common.{
  ℕ, Bool, Option, some, ⊤, lift, self, modify, when_some, ◌>>=◌, ◌>>◌, or_else,
}
use event_ticketing_soa.Common.Text.{Text}
use event_ticketing_soa.Payment.Enums.{PaymentStatus, ProviderOperation}
use event_ticketing_soa.Payment.Rules.{validate_identifier, validate_reason}
use event_ticketing_soa.Payment.Entity.State.{Method}
use event_ticketing_soa.Payment.Entity.Guards.{outcome_checks, capture_checks}
use event_ticketing_soa.Payment.Entity.Steps.{complete_outcome, set_provider_reference}

unfoldable pub authorize : Text → ℕ → ℕ → Bool → Method ⊤
authorize provider_reference expected_version now reconciled = do
  p ← self
  lift (
      outcome_checks PaymentStatus.authorized expected_version (some ProviderOperation.authorize)
        reconciled p)
  set_provider_reference provider_reference
  modify (λ s. record s {
    status = PaymentStatus.authorized;
    authorized_at = or_else s.authorized_at (some now);
  })
  complete_outcome now reconciled

unfoldable pub capture : Text → ℕ → ℕ → Bool → Bool → Method ⊤
capture provider_reference expected_version now allow_direct reconciled = do
  p ← self
  lift (capture_checks expected_version allow_direct reconciled p)
  set_provider_reference provider_reference
  modify (λ s. record s {
    status = PaymentStatus.captured;
    captured_amount = s.amount;
    captured_at = or_else s.captured_at (some now);
  })
  complete_outcome now reconciled

unfoldable pub fail :
    (failure_code reason : Text)
    → (provider_reference : Option Text) → ℕ
    → ℕ
    → Option ProviderOperation
    → Bool
    → Method ⊤
fail failure_code reason provider_reference expected_version now operation reconciled = do
  p ← self
  lift (
      outcome_checks PaymentStatus.failed expected_version (or_else operation p.pending_operation)
        reconciled p)
  when_some provider_reference set_provider_reference
  code ← lift (validate_identifier failure_code "failureCode" 128)
  modify (λ s. record s { failure_code = some code })
  text ← lift (validate_reason reason "reason")
  modify (λ s. record s { failure_reason = some text; status = PaymentStatus.failed })
  complete_outcome now reconciled

unfoldable pub cancel :
    (reason : Text) → (provider_reference : Option Text) → ℕ → ℕ → Bool → Method ⊤
cancel reason provider_reference expected_version now reconciled = do
  p ← self
  lift (
      outcome_checks PaymentStatus.cancelled expected_version (some ProviderOperation.cancel)
        reconciled p)
  when_some provider_reference set_provider_reference
  text ← lift (validate_reason reason "reason")
  modify (λ s. record s {
    cancellation_reason = some text;
    status = PaymentStatus.cancelled;
    cancelled_at = or_else s.cancelled_at (some now);
  })
  complete_outcome now reconciled
