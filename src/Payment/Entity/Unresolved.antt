-- ===== src/Payment/Entity/Unresolved.antt =====
-- A provider call whose outcome is not known: `mark_unknown` and `record_reconciliation_failure`.
use event_ticketing_soa.Common.{
  ℕ, ◌+◌, Option, some, ⊤, lift, self, modify, when_some, raise_unless, ◌>>=◌, ◌>>◌, if◌then◌else◌,
  some_and,
}
use event_ticketing_soa.Common.Text.{Text}
use event_ticketing_soa.Payment.Enums.{
  PaymentStatus, ReconciliationStatus, ProviderOperation, status, status_eq, operation_eq,
}
use event_ticketing_soa.Payment.Errors.{invalid}
use event_ticketing_soa.Payment.Rules.{validate_reason}
use event_ticketing_soa.Payment.Entity.State.{Method, check_version}
use event_ticketing_soa.Payment.Entity.Guards.{unknown_checks, reconciliation_checks}
use event_ticketing_soa.Payment.Entity.Steps.{advance, set_provider_reference}

-- What `mark_unknown` does with a payment that is UNKNOWN already: nothing, or a raise.
unfoldable pub already_unknown : ProviderOperation → Method ⊤
already_unknown operation = do
  p ← self
  raise_unless (some_and p.pending_operation (λ o. operation_eq o operation))
      (invalid "Payment is already awaiting another provider operation")

unfoldable pub become_unknown :
    ProviderOperation → (reason : Text) → ℕ → (provider_reference : Option Text) → Method ⊤
unfolding advance
become_unknown operation reason now provider_reference = do
  p ← self
  lift (unknown_checks p.status)
  when_some provider_reference set_provider_reference
  modify (λ s. record s {
    last_stable_status = some s.status;
    status = PaymentStatus.unknown;
    pending_operation = some operation;
    reconciliation_status = ReconciliationStatus.pending;
    unknown_since = some now;
    reconciliation_due_at = some now;
  })
  text ← lift (validate_reason reason "unknownReason")
  modify (λ s. record s { reconciliation_error = some text })
  advance now

unfoldable pub mark_unknown :
    ProviderOperation → (reason : Text) → ℕ → ℕ → (provider_reference : Option Text) → Method ⊤
unfolding already_unknown
mark_unknown operation reason expected_version now provider_reference = do
  p ← self
  lift (check_version expected_version p)
  if status_eq p.status PaymentStatus.unknown
      then already_unknown operation
      else become_unknown operation reason now provider_reference

unfoldable pub record_reconciliation_failure :
    (reason : Text) → ℕ → ℕ → (next_due_at : Option ℕ) → Method ⊤
unfolding advance
record_reconciliation_failure reason expected_version now next_due_at = do
  p ← self
  lift (reconciliation_checks expected_version now next_due_at p)
  modify (λ s. record s {
    reconciliation_status = ReconciliationStatus.failed;
    reconciliation_attempts = s.reconciliation_attempts + 1;
    last_reconciled_at = some now;
    reconciliation_due_at = next_due_at;
  })
  text ← lift (validate_reason reason "reconciliationError")
  modify (λ s. record s { reconciliation_error = some text })
  advance now
