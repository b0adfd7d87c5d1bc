-- ===== src/Payment/Invariant/Guards.antt =====
-- What the guards of the operations establish of a valid payment.
use event_ticketing_soa.Common.{
  ℕ, ◌<◌, ◌≤◌, ◌+◌, ◌≡◌, true, false, Bool, Option, some, ok, arith, inl, inr, Result-cases, one_of,
  [], ◌∷◌,
}
use event_ticketing_soa.Common.Money.{Decimal}
use event_ticketing_soa.Payment.Enums.{PaymentStatus, status, ProviderOperation}
use event_ticketing_soa.Payment.Rules.{validate_money, ensure_transition_allowed}
use event_ticketing_soa.Payment.Minor.{validate_money_positive}
use event_ticketing_soa.Payment.Entity.{
  Payment, prepare_resolution, resolve, outcome_checks, capture_checks, direct_capture,
  refund_checks, refundable_checks, amount_checks, unknown_checks,
}
use event_ticketing_soa.Payment.Invariant.Defs.{IsValid, ByStatus, is_open}

-- An outcome starts from a status whose amounts are the payment's.
pub prepare_resolution-ByStatus :
    (v : ℕ) (o : Option ProviderOperation) (reconciled : Bool) (p : Payment) {s : PaymentStatus}
    → IsValid p
    → prepare_resolution v o reconciled p ≡ ok s
    → ByStatus s p.amount p.captured_amount p.refunded_amount
unfolding prepare_resolution resolve
prepare_resolution-ByStatus v o reconciled p i h = ground (arith, i.stable)

-- The failures, the cancellation and the authorization start with nothing captured.
pub outcome_checks_accepts :
    (t : PaymentStatus) (v : ℕ) (o : Option ProviderOperation) (reconciled : Bool) (p : Payment)
    → IsValid p
    → one_of t (PaymentStatus.authorized ∷ PaymentStatus.failed ∷ PaymentStatus.cancelled ∷ [])
      ≡ true
    → outcome_checks t v o reconciled p ≡ ok tt
    → ByStatus t p.amount p.captured_amount p.refunded_amount
unfolding outcome_checks ensure_transition_allowed
outcome_checks_accepts t v o reconciled p i k h =
    elim (Result-cases (prepare_resolution v o reconciled p)) [
      | inl (s, e) ↦ ground (arith, prepare_resolution-ByStatus v o reconciled p i e)
      | inr (x, e) ↦ ground arith
    ]

pub capture_checks_accepts :
    (v : ℕ) (direct reconciled : Bool) (p : Payment)
    → IsValid p
    → capture_checks v direct reconciled p ≡ ok tt
    → p.refunded_amount ≡ 0
unfolding capture_checks direct_capture ensure_transition_allowed
capture_checks_accepts v direct reconciled p i h =
    let o = some ProviderOperation.capture in
    elim (Result-cases (prepare_resolution v o reconciled p)) [
      | inl (s, e) ↦ ground (arith, prepare_resolution-ByStatus v o reconciled p i e)
      | inr (x, e) ↦ ground arith
    ]

pub refund_checks_accepts :
    (d : Decimal) (v : ℕ) (reconciled : Bool) (p : Payment) {n : ℕ}
    → IsValid p
    → refund_checks d v reconciled p ≡ ok n
    → (0 < n) × (p.refunded_amount + n ≤ p.captured_amount) × (p.captured_amount ≡ p.amount)
unfolding refund_checks refundable_checks amount_checks ensure_transition_allowed
refund_checks_accepts d v reconciled p i h =
    let o = some ProviderOperation.refund in
    elim (Result-cases (prepare_resolution v o reconciled p)) [
      | inl (s, e) ↦ elim (Result-cases (validate_money d "refundAmount" false)) [
        | inl (m, e') ↦ ground (
          arith,
          prepare_resolution-ByStatus v o reconciled p i e,
          validate_money_positive d "refundAmount" e',
        )
        | inr (x, e') ↦ ground arith
      ]
      | inr (x, e) ↦ ground arith
    ]

pub unknown_checks_accepts :
    (p : Payment) → unknown_checks p.status ≡ ok tt → is_open p.status ≡ true
unfolding unknown_checks ensure_transition_allowed
unknown_checks_accepts p h = ground arith
