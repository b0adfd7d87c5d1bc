-- ===== src/Payment/Ledger/Stale.antt =====
-- Operations with a stale version, and on a final payment.
use event_ticketing_soa.Common.{ℕ, ◌≡◌, ◌≢◌, true, Bool, [], ◌∷◌, Result, ok, err, arith, one_of}
use event_ticketing_soa.Payment.Enums.{PaymentStatus, status}
use event_ticketing_soa.Payment.Errors.{PaymentError}
use event_ticketing_soa.Payment.Rules.{ensure_transition_allowed}
use event_ticketing_soa.Payment.Entity.{
  Payment, check_version, prepare_resolution, outcome_checks, capture_checks, direct_capture,
  unknown_checks, reconciliation_checks, refund_checks, refundable_checks, authorize, capture, fail,
  cancel, mark_unknown, become_unknown, record_reconciliation_failure, refund,
}
use event_ticketing_soa.Payment.Ledger.Operations.{Operation, perform, expected_version}

-- An operation whose expected version is not the payment's is refused with that conflict, and
-- writes nothing.
pub perform_stale :
    (o : Operation) (now : ℕ) (p : Payment)
    → p.resource_version ≢ expected_version o
    → perform o now p
      ≡ (err (PaymentError.version_conflict (expected_version o) p.resource_version), p)
unfolding perform authorize capture fail cancel mark_unknown record_reconciliation_failure refund
    outcome_checks capture_checks reconciliation_checks refund_checks prepare_resolution
    check_version
perform_stale o now p h = ground arith

abbrev pub is_final : PaymentStatus → Bool
is_final s = one_of s (PaymentStatus.failed ∷ PaymentStatus.cancelled ∷ PaymentStatus.refunded ∷ [])

abbrev pub IsRefused : {A : Type 0} → Payment → Result PaymentError A × Payment → Type 0
IsRefused p (ok _, _) = ok tt ≡ err tt
IsRefused p (err _, p') = p' ≡ p

-- A failed, cancelled or wholly refunded payment refuses every operation, and no write is made.
pub perform_final :
    (o : Operation) (now : ℕ) (p : Payment)
    → is_final p.status ≡ true
    → IsRefused p (perform o now p)
unfolding perform authorize capture fail cancel mark_unknown become_unknown
    record_reconciliation_failure refund outcome_checks capture_checks direct_capture
    reconciliation_checks unknown_checks refund_checks refundable_checks prepare_resolution
    check_version ensure_transition_allowed
perform_final o now p h = ground arith
