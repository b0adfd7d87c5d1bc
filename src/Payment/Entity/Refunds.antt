-- ===== src/Payment/Entity/Refunds.antt =====
-- `Payment.refund`
use event_ticketing_soa.Common.{
  ℕ, ◌+◌, Bool, some, lift, self, modify, pure, ◌>>=◌, ◌>>◌, if◌then◌else◌, or_else,
}
use event_ticketing_soa.Common.Text.{Text}
use event_ticketing_soa.Common.Money.{Decimal}
use event_ticketing_soa.Payment.Enums.{PaymentStatus, RefundKind, status, status_eq}
use event_ticketing_soa.Payment.Rules.{validate_identifier, validate_reason}
use event_ticketing_soa.Payment.Values.{Refund}
use event_ticketing_soa.Payment.Entity.State.{Method}
use event_ticketing_soa.Payment.Entity.Guards.{refund_target, refund_checks}
use event_ticketing_soa.Payment.Entity.Steps.{complete_outcome}

unfoldable pub refund :
    (refund_id : Text)
    → Decimal
    → (reason provider_reference : Text) → RefundKind
    → ℕ
    → ℕ
    → Bool
    → Method Refund
refund refund_id amount reason provider_reference kind expected_version now reconciled = do
  p ← self
  refund_amount ← lift (refund_checks amount expected_version reconciled p)
  let target = refund_target p.captured_amount p.refunded_amount refund_amount
  reference ← lift (validate_identifier provider_reference "providerRefundReference" 128)
  text ← lift (validate_reason reason "reason")
  modify (λ s. record s {
    refunded_amount = s.refunded_amount + refund_amount;
    status = target;
    refunded_at =
        if status_eq target PaymentStatus.refunded
        then or_else s.refunded_at (some now)
        else s.refunded_at;
  })
  complete_outcome now reconciled
  id ← lift (validate_identifier refund_id "refundId" 128)
  s ← self
  pure (record {
    refund_id = id;
    payment_id = s.payment_id;
    amount = refund_amount;
    currency = s.currency;
    reason = text;
    kind = kind;
    provider_reference = reference;
    created_at = now;
  })
