-- ===== src/Payment/Entity/Steps.antt =====
-- The writes that every operation ends with.
use event_ticketing_soa.Common.{
  ℕ, ◌+◌, Bool, ◌||◌, not, none, some, ⊤, lift, self, modify, raise_if, ◌>>=◌, ◌>>◌, if◌then◌else◌,
  is_some, some_and,
}
use event_ticketing_soa.Common.Text.{Text, text_eq}
use event_ticketing_soa.Payment.Enums.{ReconciliationStatus}
use event_ticketing_soa.Payment.Errors.{PaymentError}
use event_ticketing_soa.Payment.Rules.{validate_identifier}
use event_ticketing_soa.Payment.Entity.State.{Method}

unfoldable pub advance : ℕ → Method ⊤
advance now = modify (λ p. record p { resource_version = p.resource_version + 1; updated_at = now })

-- `_complete_outcome`
unfoldable pub complete_outcome : ℕ → Bool → Method ⊤
unfolding advance
complete_outcome now reconciled = do
  modify (λ p.
      if reconciled || is_some p.pending_operation
      then record p {
        reconciliation_status = ReconciliationStatus.completed;
        reconciliation_attempts = p.reconciliation_attempts + 1;
        last_reconciled_at = some now;
      }
      else record p { reconciliation_status = ReconciliationStatus.not_required })
  modify (λ p. record p {
    last_stable_status = none;
    pending_operation = none;
    unknown_since = none;
    reconciliation_due_at = none;
    reconciliation_error = none;
  })
  advance now

-- `_set_provider_reference`
unfoldable pub set_provider_reference : Text → Method ⊤
set_provider_reference value = do
  normalized ← lift (validate_identifier value "providerReference" 128)
  p ← self
  raise_if (some_and p.provider_reference (λ r. not (text_eq r normalized)))
      PaymentError.provider_reference_conflict
  modify (λ s. record s { provider_reference = some normalized })
