-- ===== src/Payment/Provider/Apply.antt =====
-- services/payment-service/app/application/provider_outcomes.py: an outcome applied to a loaded
-- payment.
use event_ticketing_soa.Common.{
  ℕ, ◌-◌, Bool, true, false, Option, none, some, value_or, Result, ok, ⊤, lift, self, raise, pure,
  raise_if, raise_unless, ◌>>=◌, ◌>>◌, if◌then◌else◌, one_of, ltb, ◌==◌,
}
use event_ticketing_soa.Common.Text.{Text, codes}
use event_ticketing_soa.Common.Money.{Decimal}
use event_ticketing_soa.Payment.Enums.{PaymentStatus, RefundKind, status_eq, status}
use event_ticketing_soa.Payment.Errors.{PaymentError, invalid}
use event_ticketing_soa.Payment.Values.{Refund}
use event_ticketing_soa.Payment.Entity.{Payment, Method, authorize, capture, fail, cancel, refund}
use event_ticketing_soa.Payment.Provider.Outcome.{ProviderOutcome, refund_states, normalize_outcome}
use event_ticketing_soa.Payment.Provider.Guards.{
  Rows, ensure_payment_provider_reference_available, guard_refund_outcome, is_noop,
}

-- `cast`: the value is there, by the validation of the outcome's fields.
abbrev pub with_value : {A B : Type 0} → Option A → (A → Method B) → Method B
with_value none f = raise PaymentError.attribute_error
with_value (some a) f = f a

-- The difference of two amounts in cents, as a `Decimal`.
abbrev pub cents : ℕ → Decimal
cents n = Decimal.fraction false n 2

-- `refund_id` is `next_refund_id` of the call.
unfoldable pub refund_delta :
    (refund_id : Text) → ProviderOutcome ℕ → (delta expected_version now : ℕ) → Bool → Method Refund
refund_delta refund_id o delta expected_version now reconciled = do
  raise_if (delta == 0) (invalid "Provider refund outcome does not change local state")
  receipt ← with_value o.provider_refund_reference (λ reference.
      refund refund_id (cents delta) (value_or o.reason (codes "provider reconciliation")) reference
        RefundKind.reconciliation expected_version now reconciled)
  p ← self
  raise_unless (status_eq p.status o.status)
      (invalid "providerStatus does not match observedRefundedAmount")
  pure receipt

unfoldable pub apply_refund_outcome :
    (refund_id : Text) → ProviderOutcome ℕ → (expected_version now : ℕ) → Bool → Method Refund
unfolding refund_delta
apply_refund_outcome refund_id o expected_version now reconciled = do
  p ← self
  with_value o.refunded_amount λ observed. do
    raise_if (ltb observed p.refunded_amount)
        (invalid "Provider refund state is older than local state")
    refund_delta refund_id o (observed - p.refunded_amount) expected_version now reconciled

-- The branches, by the outcome's status.
unfoldable pub apply_status :
    PaymentStatus
    → (refund_id : Text) → ProviderOutcome ℕ
    → (expected_version now : ℕ) → Bool
    → Method (Option Refund)
unfolding apply_refund_outcome
apply_status PaymentStatus.authorized refund_id o expected_version now reconciled = do
  with_value o.provider_reference (λ r. authorize r expected_version now reconciled)
  pure none
apply_status PaymentStatus.captured refund_id o expected_version now reconciled = do
  with_value o.provider_reference (λ r. capture r expected_version now true reconciled)
  pure none
apply_status PaymentStatus.failed refund_id o expected_version now reconciled = do
  with_value o.failure_code (λ code. with_value o.reason (λ text.
      fail code text o.provider_reference expected_version now (some o.operation) reconciled))
  pure none
apply_status PaymentStatus.cancelled refund_id o expected_version now reconciled = do
  with_value o.reason (λ text. cancel text o.provider_reference expected_version now reconciled)
  pure none
apply_status PaymentStatus.partially_refunded refund_id o expected_version now reconciled = do
  receipt ← apply_refund_outcome refund_id o expected_version now reconciled
  pure (some receipt)
apply_status PaymentStatus.refunded refund_id o expected_version now reconciled = do
  receipt ← apply_refund_outcome refund_id o expected_version now reconciled
  pure (some receipt)
apply_status _ refund_id o expected_version now reconciled =
    raise (invalid "Unsupported providerStatus")

-- `if outcome.status in REFUND_STATES: guard_refund_outcome(...)`
unfoldable pub guard_outcome : Rows → Payment → ProviderOutcome ℕ → Result PaymentError ⊤
guard_outcome rows p o =
    if one_of o.status refund_states then guard_refund_outcome rows p o else ok tt

unfoldable pub apply_provider_outcome :
    Rows
    → (refund_id : Text) → ProviderOutcome Decimal
    → (expected_version now : ℕ) → Bool
    → Method (Option Refund)
unfolding apply_status guard_outcome
apply_provider_outcome rows refund_id outcome expected_version now reconciled = do
  o ← lift (normalize_outcome outcome)
  p ← self
  lift (ensure_payment_provider_reference_available rows p o.provider_reference)
  lift (guard_outcome rows p o)
  noop ← lift (is_noop p o)
  if noop then pure none else apply_status o.status refund_id o expected_version now reconciled
