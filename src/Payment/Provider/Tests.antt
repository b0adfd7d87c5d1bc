-- ===== src/Payment/Provider/Tests.antt =====
-- A refund that the provider reports twice.
use event_ticketing_soa.Common.{◌≡◌, refl, true, false, none, some, [], ◌∷◌, ok}
use event_ticketing_soa.Common.Rows.{first}
use event_ticketing_soa.Common.Text.{codes, strip, lstrip, matches_identifier, text_eq}
use event_ticketing_soa.Common.Money.{Decimal, quantize_cents, equals_cents}
use event_ticketing_soa.Payment.Enums.{
  PaymentStatus, ReconciliationStatus, ProviderOperation, ProviderOutcomeSource,
  MockProviderScenario, RefundKind,
}
use event_ticketing_soa.Payment.Rules.{
  validate_identifier, validate_optional_identifier, validate_money, validate_reason,
  ensure_transition_allowed,
}
use event_ticketing_soa.Payment.Values.{Refund}
use event_ticketing_soa.Payment.Entity.{
  Payment, prepare_resolution, resolve, check_version, refund_checks, refundable_checks,
  amount_checks, complete_outcome, advance, refund, provider_reference_matches,
}
use event_ticketing_soa.Payment.Provider.Outcome.{
  ProviderOutcome, normalize_outcome, validate_given, validate_observed, validate_outcome_fields,
}
use event_ticketing_soa.Payment.Provider.Guards.{
  Rows, ensure_payment_provider_reference_available, get_payment_by_provider_reference,
  get_refund_by_provider_reference, guard_refund_outcome, guard_reference, guard_existing,
  ensure_reference, is_noop, is_recorded,
}
use event_ticketing_soa.Payment.Provider.Apply.{
  apply_provider_outcome, guard_outcome, apply_status, apply_refund_outcome, refund_delta,
}
use event_ticketing_soa.Payment.Provider.Twice.{apply_provider_outcome-twice, with_receipt}

abbrev captured : Payment
captured = record {
  payment_id = codes "p1";
  booking_id = codes "b1";
  customer_id = codes "c1";
  amount = 2500;
  currency = codes "EUR";
  payment_method = codes "card";
  provider = codes "mock";
  status = PaymentStatus.captured;
  captured_amount = 2500;
  refunded_amount = 0;
  resource_version = 2;
  created_at = 5;
  updated_at = 6;
  provider_reference = some (codes "ref1");
  failure_code = none;
  failure_reason = none;
  cancellation_reason = none;
  authorized_at = none;
  captured_at = some 6;
  cancelled_at = none;
  refunded_at = none;
  method_fingerprint = none;
  provider_scenario = MockProviderScenario.manual;
  booking_evidence_version = none;
  booking_evidence_id = none;
  booking_evidence_verified = false;
  last_stable_status = none;
  pending_operation = none;
  reconciliation_status = ReconciliationStatus.not_required;
  reconciliation_attempts = 0;
  unknown_since = none;
  reconciliation_due_at = none;
  last_reconciled_at = none;
  reconciliation_error = none;
}

-- Ten of the twenty-five are given back.
abbrev report : ProviderOutcome Decimal
report = record {
  status = PaymentStatus.partially_refunded;
  operation = ProviderOperation.refund;
  source = ProviderOutcomeSource.callback;
  provider_reference = some (codes "ref1 ");
  provider_refund_reference = some (codes "rr1");
  refunded_amount = some (Decimal.scaled false 10 0);
  failure_code = none;
  reason = none;
  occurred_at = none;
}

abbrev rows : Rows
rows = record { payments = captured ∷ []; refunds = [] }

abbrev receipt : Refund
receipt = record {
  refund_id = codes "RF1";
  payment_id = codes "p1";
  amount = 1000;
  currency = codes "EUR";
  reason = codes "provider reconciliation";
  kind = RefundKind.reconciliation;
  provider_reference = codes "rr1";
  created_at = 9;
}

abbrev refunded : Payment
refunded = record captured {
  status = PaymentStatus.partially_refunded;
  refunded_amount = 1000;
  resource_version = 3;
  updated_at = 9;
}

report-refunded :
    apply_provider_outcome rows (codes "RF1") report 2 9 false captured
    ≡ (ok (some receipt), refunded)
unfolding apply_provider_outcome guard_outcome apply_status apply_refund_outcome refund_delta
    normalize_outcome validate_given validate_observed validate_outcome_fields
    ensure_payment_provider_reference_available get_payment_by_provider_reference
    get_refund_by_provider_reference guard_refund_outcome guard_reference guard_existing
    ensure_reference is_noop is_recorded validate_identifier validate_optional_identifier
    validate_money validate_reason ensure_transition_allowed prepare_resolution resolve
    check_version refund_checks refundable_checks amount_checks complete_outcome advance refund
    provider_reference_matches quantize_cents equals_cents strip lstrip matches_identifier text_eq
    first
report-refunded = refl

apply_provider_outcome-twice_example :
    apply_provider_outcome
      (with_receipt rows refunded receipt)
      (codes "RF2")
      report
      2
      12
      true
      refunded
    ≡ (ok none, refunded)
apply_provider_outcome-twice_example =
    apply_provider_outcome-twice rows (codes "RF1") (codes "RF2") report 2 2 9 12 false true
      captured refunded receipt report-refunded
