-- ===== src/Payment/Ledger/Tests.antt =====
-- A history of one payment, and the theorems at it.
use event_ticketing_soa.Common.{
  ℕ, ◌+◌, ◌≡◌, ◌≤◌, refl, true, false, none, some, List, [], ◌∷◌, ok, err, arith, Ensures,
}
use event_ticketing_soa.Common.Text.{
  codes, strip, upper, lower, matches_identifier, matches_currency, text_eq,
}
use event_ticketing_soa.Common.Money.{Decimal, quantize_cents, equals_cents}
use event_ticketing_soa.Payment.Enums.{
  PaymentStatus, ReconciliationStatus, ProviderOperation, MockProviderScenario, RefundKind,
}
use event_ticketing_soa.Payment.Errors.{PaymentError}
use event_ticketing_soa.Payment.Rules.{
  validate_identifier, validate_money, validate_currency, validate_payment_method, has_letter,
  validate_reason, payment_token_fingerprint, mock_scenario_from_token, known_scenario,
  amount_from_minor, amount_to_minor, currency_exponent, exponent_of, ensure_transition_allowed,
}
use event_ticketing_soa.Payment.Values.{
  PaymentDraft, BookingPaymentEvidence, draft_from_request, check_evidence, assert_matches,
}
use event_ticketing_soa.Payment.Entity.{
  Payment, create, definition, prepare_resolution, resolve, check_version, outcome_checks,
  capture_checks, direct_capture, unknown_checks, reconciliation_checks, refund_checks,
  refundable_checks, amount_checks, set_provider_reference, complete_outcome, advance, authorize,
  capture, mark_unknown, become_unknown, already_unknown, record_reconciliation_failure, refund,
}
use event_ticketing_soa.Payment.Minor.{amount_to_minor-amount_from_minor}
use event_ticketing_soa.Payment.Drafts.{draft_from_request-evidence}
use event_ticketing_soa.Payment.Invariant.{IsValid}
use event_ticketing_soa.Payment.Ledger.Operations.{Operation, perform, history, total}
use event_ticketing_soa.Payment.Ledger.Stale.{perform_stale, perform_final, IsRefused}
use event_ticketing_soa.Payment.Ledger.Receipts.{perform-total, receipts_balance}
use event_ticketing_soa.Payment.Ledger.Captured.{is_captured, history_captured}

abbrev evidence : BookingPaymentEvidence
evidence = record {
  booking_id = codes "b1";
  customer_id = codes "c1";
  amount = 2500;
  currency = codes "EUR";
  resource_version = some 3;
  evidence_id = none;
}

abbrev draft : PaymentDraft
draft = record {
  booking_id = codes "b1";
  customer_id = codes "c1";
  amount = 2500;
  currency = codes "EUR";
  payment_method = codes "card";
  provider = codes "mock";
  method_fingerprint = some (codes "tok_demo_success");
  provider_scenario = MockProviderScenario.success;
  booking_evidence_version = some 3;
  booking_evidence_id = none;
  booking_evidence_verified = true;
}

draft_from_request-draft :
    draft_from_request
      (λ t. t)
      (codes "b1")
      (codes "c1")
      (Decimal.scaled false 25 0)
      (codes "eur")
      (codes "card")
      (codes "mock")
      (some (codes "tok_demo_success"))
      (some evidence)
    ≡ ok draft
unfolding draft_from_request check_evidence assert_matches validate_identifier validate_money
    validate_currency validate_payment_method has_letter payment_token_fingerprint
    mock_scenario_from_token known_scenario strip upper lower matches_identifier matches_currency
    text_eq quantize_cents equals_cents
draft_from_request-draft = refl

abbrev start : Payment
start = record {
  payment_id = codes "p1";
  booking_id = codes "b1";
  customer_id = codes "c1";
  amount = 2500;
  currency = codes "EUR";
  payment_method = codes "card";
  provider = codes "mock";
  status = PaymentStatus.pending;
  captured_amount = 0;
  refunded_amount = 0;
  resource_version = 1;
  created_at = 5;
  updated_at = 5;
  provider_reference = none;
  failure_code = none;
  failure_reason = none;
  cancellation_reason = none;
  authorized_at = none;
  captured_at = none;
  cancelled_at = none;
  refunded_at = none;
  method_fingerprint = some (codes "tok_demo_success");
  provider_scenario = MockProviderScenario.success;
  booking_evidence_version = some 3;
  booking_evidence_id = none;
  booking_evidence_verified = true;
  last_stable_status = none;
  pending_operation = none;
  reconciliation_status = ReconciliationStatus.not_required;
  reconciliation_attempts = 0;
  unknown_since = none;
  reconciliation_due_at = none;
  last_reconciled_at = none;
  reconciliation_error = none;
}

create-start : create (codes "p1 ") draft 5 ≡ ok start
unfolding create validate_identifier strip matches_identifier
create-start = refl

definition-start : definition start ≡ draft
unfolding definition
definition-start = refl

abbrev refund_ten : ℕ → Operation
refund_ten v =
    Operation.refund (codes "f1") (Decimal.scaled false 10 0) (codes "late") (codes "x1")
      RefundKind.requested v false

-- Authorize, capture, refund 10.00, lose the answer of the second refund, then learn that 15.00
-- was refunded.
abbrev refunded_twice : List (Operation × ℕ)
refunded_twice =
    (Operation.authorize (codes "ref") 1 false, 10)
    ∷ (Operation.capture (codes "ref") 2 false false, 11)
    ∷ (refund_ten 3, 12)
    ∷ (Operation.mark_unknown ProviderOperation.refund (codes "timeout") 4 none, 13)
    ∷ (Operation.record_reconciliation_failure (codes "no answer") 5 (some 20), 14)
    ∷ (
      Operation.refund (codes "f2") (Decimal.fraction false 1500 2) (codes "late") (codes "x2")
          RefundKind.reconciliation 6 true,
      20,
    )
    ∷ []

refunded_twice_refunds :
    let (n, p) = history refunded_twice start in
    (n ≡ 2500) × (p.status ≡ PaymentStatus.refunded) × (p.resource_version ≡ 7)
unfolding history perform authorize capture refund mark_unknown become_unknown already_unknown
    record_reconciliation_failure outcome_checks capture_checks direct_capture unknown_checks
    reconciliation_checks refund_checks refundable_checks amount_checks prepare_resolution resolve
    check_version set_provider_reference complete_outcome advance ensure_transition_allowed
    validate_identifier validate_money validate_reason strip matches_identifier text_eq
    quantize_cents equals_cents
refunded_twice_refunds = (refl, refl, refl)

receipts_balance_example :
    let (n, q) = history refunded_twice start in
    (n ≡ q.refunded_amount)
    × (q.refunded_amount ≤ q.captured_amount)
    × (q.captured_amount ≤ q.amount)
    × (q.amount ≡ 2500)
receipts_balance_example =
    receipts_balance (λ t. t) (codes "b1") (codes "c1") (Decimal.scaled false 25 0) (codes "eur")
      (codes "card") (codes "mock") (some (codes "tok_demo_success")) (some evidence) (codes "p1 ")
      5 refunded_twice draft_from_request-draft create-start

abbrev sold : Payment
sold = record start {
  status = PaymentStatus.captured;
  captured_amount = 2500;
  resource_version = 3;
}

start-IsValid : IsValid start
start-IsValid = ground arith

sold-IsValid : IsValid sold
sold-IsValid = ground arith

-- A refusal that comes after the capture, then the two refunds.
abbrev refused_then_refunded : List (Operation × ℕ)
refused_then_refunded =
    (Operation.fail (codes "declined") (codes "too late") none 3 none true, 11) ∷ refunded_twice

history_captured_example :
    let q = (history refused_then_refunded sold).1 in
    (is_captured q ≡ true) × (q.captured_amount ≡ 2500)
history_captured_example = history_captured refused_then_refunded sold sold-IsValid refl

perform-total_example :
    Ensures
      (λ rs p'.
        IsValid p'
        × (p'.amount ≡ 2500)
        × (2500 ≤ p'.captured_amount)
        × (p'.refunded_amount ≡ 0 + total rs))
      (perform (refund_ten 3) 12 sold)
perform-total_example = perform-total (refund_ten 3) 12 sold sold-IsValid

perform_stale_example :
    perform (refund_ten 2) 12 sold ≡ (err (PaymentError.version_conflict 2 3), sold)
perform_stale_example = perform_stale (refund_ten 2) 12 sold (omega arith)

abbrev failed : Payment
failed = record start { status = PaymentStatus.failed; resource_version = 2 }

perform_final_example :
    IsRefused failed (perform (Operation.capture (codes "ref") 2 true true) 12 failed)
perform_final_example = perform_final (Operation.capture (codes "ref") 2 true true) 12 failed refl

read_dong : amount_from_minor 150000 (codes "vnd ") ≡ ok 15000000
unfolding amount_from_minor currency_exponent exponent_of validate_currency validate_money strip
    upper matches_currency text_eq quantize_cents equals_cents
read_dong = refl

amount_to_minor-amount_from_minor_example :
    amount_to_minor (Decimal.fraction false 15000000 2) (codes "vnd ") ≡ ok 150000
amount_to_minor-amount_from_minor_example =
    amount_to_minor-amount_from_minor 150000 (codes "vnd ") read_dong

draft_from_request-evidence_example :
    (draft.booking_id ≡ evidence.booking_id)
    × (draft.customer_id ≡ evidence.customer_id)
    × (draft.amount ≡ evidence.amount)
    × (draft.currency ≡ evidence.currency)
draft_from_request-evidence_example =
    draft_from_request-evidence (λ t. t) (codes "b1") (codes "c1") (Decimal.scaled false 25 0)
      (codes "eur") (codes "card") (codes "mock") (some (codes "tok_demo_success")) evidence
      draft_from_request-draft
