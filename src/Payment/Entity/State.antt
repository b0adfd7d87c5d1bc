-- ===== src/Payment/Entity/State.antt =====
-- The record `Payment`, its creation, and the helpers that every operation calls.
use event_ticketing_soa.Common.{
  ℕ, Bool, true, false, not, Option, none, some, Result, ok, err, ⊤, Action, ◌==◌, if◌then◌else◌,
}
use event_ticketing_soa.Common.Pure.{◌>>=◌, ◌>>◌}
use event_ticketing_soa.Common.Text.{Text, text_eq}
use event_ticketing_soa.Payment.Enums.{
  PaymentStatus, ReconciliationStatus, ProviderOperation, MockProviderScenario, operation_eq,
}
use event_ticketing_soa.Payment.Errors.{PaymentError, invalid}
use event_ticketing_soa.Payment.Rules.{validate_identifier, validate_optional_identifier}
use event_ticketing_soa.Payment.Values.{PaymentDraft}

pub record Payment : Type 0 where
  pub payment_id : Text
  pub booking_id : Text
  pub customer_id : Text
  pub amount : ℕ
  pub currency : Text
  pub payment_method : Text
  pub provider : Text
  pub status : PaymentStatus
  pub captured_amount : ℕ
  pub refunded_amount : ℕ
  pub resource_version : ℕ
  pub created_at : ℕ
  pub updated_at : ℕ
  pub provider_reference : Option Text
  pub failure_code : Option Text
  pub failure_reason : Option Text
  pub cancellation_reason : Option Text
  pub authorized_at : Option ℕ
  pub captured_at : Option ℕ
  pub cancelled_at : Option ℕ
  pub refunded_at : Option ℕ
  pub method_fingerprint : Option Text
  pub provider_scenario : MockProviderScenario
  pub booking_evidence_version : Option ℕ
  pub booking_evidence_id : Option Text
  pub booking_evidence_verified : Bool
  pub last_stable_status : Option PaymentStatus
  pub pending_operation : Option ProviderOperation
  pub reconciliation_status : ReconciliationStatus
  pub reconciliation_attempts : ℕ
  pub unknown_since : Option ℕ
  pub reconciliation_due_at : Option ℕ
  pub last_reconciled_at : Option ℕ
  pub reconciliation_error : Option Text

-- A method of the aggregate.
abbrev pub Method : Type 0 → Type 0
Method A = Action PaymentError Payment A

-- `Payment.create`
unfoldable pub create : Text → PaymentDraft → ℕ → Result PaymentError Payment
create payment_id draft now = validate_identifier payment_id "paymentId" 128 >>= λ id. ok (record {
  payment_id = id;
  booking_id = draft.booking_id;
  customer_id = draft.customer_id;
  amount = draft.amount;
  currency = draft.currency;
  payment_method = draft.payment_method;
  provider = draft.provider;
  status = PaymentStatus.pending;
  captured_amount = 0;
  refunded_amount = 0;
  resource_version = 1;
  created_at = now;
  updated_at = now;
  provider_reference = none;
  failure_code = none;
  failure_reason = none;
  cancellation_reason = none;
  authorized_at = none;
  captured_at = none;
  cancelled_at = none;
  refunded_at = none;
  method_fingerprint = draft.method_fingerprint;
  provider_scenario = draft.provider_scenario;
  booking_evidence_version = draft.booking_evidence_version;
  booking_evidence_id = draft.booking_evidence_id;
  booking_evidence_verified = draft.booking_evidence_verified;
  last_stable_status = none;
  pending_operation = none;
  reconciliation_status = ReconciliationStatus.not_required;
  reconciliation_attempts = 0;
  unknown_since = none;
  reconciliation_due_at = none;
  last_reconciled_at = none;
  reconciliation_error = none;
})

unfoldable pub definition : Payment → PaymentDraft
definition p = record {
  booking_id = p.booking_id;
  customer_id = p.customer_id;
  amount = p.amount;
  currency = p.currency;
  payment_method = p.payment_method;
  provider = p.provider;
  method_fingerprint = p.method_fingerprint;
  provider_scenario = p.provider_scenario;
  booking_evidence_version = p.booking_evidence_version;
  booking_evidence_id = p.booking_evidence_id;
  booking_evidence_verified = p.booking_evidence_verified;
}

unfoldable pub check_version : ℕ → Payment → Result PaymentError ⊤
check_version expected p =
    if p.resource_version == expected
    then ok tt
    else err (PaymentError.version_conflict expected p.resource_version)

-- `operation is not None and self.pending_operation not in {None, operation}`
abbrev pub is_other_operation : Option ProviderOperation → Option ProviderOperation → Bool
is_other_operation (some o) (some pending) = not (operation_eq pending o)
is_other_operation _ _ = false

-- `_prepare_resolution`, where the status is UNKNOWN and the version is right.
unfoldable pub resolve :
    Option ProviderOperation → Bool → Payment → Result PaymentError PaymentStatus
resolve operation reconciled p =
    if not reconciled
    then err (invalid "UNKNOWN payment must be resolved through callback or reconciliation")
    else if is_other_operation operation p.pending_operation
    then err (invalid "Provider outcome does not match the pending payment operation")
    else elim p.last_stable_status [
      | none ↦ err (invalid "UNKNOWN payment does not contain a stable state")
      | some s ↦ ok s
    ]

-- The stable status that an outcome starts from.
unfoldable pub prepare_resolution :
    ℕ → Option ProviderOperation → Bool → Payment → Result PaymentError PaymentStatus
unfolding check_version resolve
prepare_resolution expected operation reconciled p =
    check_version expected p
    >> elim p.status [ PaymentStatus.unknown ↦ resolve operation reconciled p | s ↦ ok s ]

abbrev pub reference_eq : Option Text → Option Text → Bool
reference_eq none none = true
reference_eq (some s) (some t) = text_eq s t
reference_eq _ _ = false

unfoldable pub provider_reference_matches : Option Text → Payment → Result PaymentError Bool
provider_reference_matches value p =
    validate_optional_identifier value "providerReference" 128 >>= λ normalized.
    ok (reference_eq p.provider_reference normalized)
