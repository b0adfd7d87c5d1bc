-- ===== src/Payment/Invariant/Refunds.antt =====
-- A refund keeps the invariant, and what it returns is what it adds to the refunded amount.
use event_ticketing_soa.Common.{
  ℕ, ◌<◌, ◌≤◌, ◌+◌, ◌≡◌, or_else, Bool, some, Result, ok, arith, inl, inr, Result-cases, Ensures,
  if◌then◌else◌,
}
use event_ticketing_soa.Common.Text.{Text}
use event_ticketing_soa.Common.Money.{Decimal}
use event_ticketing_soa.Payment.Enums.{PaymentStatus, RefundKind, status_eq}
use event_ticketing_soa.Payment.Errors.{PaymentError}
use event_ticketing_soa.Payment.Values.{Refund}
use event_ticketing_soa.Payment.Entity.{Payment, refund_checks, refund_target, refund}
use event_ticketing_soa.Payment.Invariant.Defs.{IsValid}
use event_ticketing_soa.Payment.Invariant.Guards.{refund_checks_accepts}
use event_ticketing_soa.Payment.Invariant.Outcomes.{complete_outcome-Moves}

-- A refund that returns adds the amount of the receipt to what is refunded.
abbrev pub Refunds : Payment → Result PaymentError Refund × Payment → Type 0
Refunds p = Ensures (λ receipt p'.
    IsValid p'
    × (p'.amount ≡ p.amount)
    × (p.captured_amount ≤ p'.captured_amount)
    × (p'.refunded_amount ≡ p.refunded_amount + receipt.amount)
    × (0 < receipt.amount))

pub refund-Refunds :
    (id : Text) (d : Decimal) (t r : Text) (k : RefundKind) (v now : ℕ) (reconciled : Bool)
    → (p : Payment) → IsValid p
    → Refunds p (refund id d t r k v now reconciled p)
unfolding refund
refund-Refunds id d t r k v now reconciled p i =
    elim (Result-cases (refund_checks d v reconciled p)) [
      | inl (n, h) ↦ refunded n h
      | inr (x, h) ↦ ground arith
    ]
  where
    refunded :
        (n : ℕ)
        → refund_checks d v reconciled p ≡ ok n
        → Refunds p (refund id d t r k v now reconciled p)
    refunded n h =
        let target = refund_target p.captured_amount p.refunded_amount n in
        let q = record p {
          refunded_amount = p.refunded_amount + n;
          status = target;
          refunded_at =
              if status_eq target PaymentStatus.refunded
              then or_else p.refunded_at (some now)
              else p.refunded_at;
        } in
        ground (
          arith,
          i.positive,
          refund_checks_accepts d v reconciled p i h,
          complete_outcome-Moves n now reconciled p q,
        )
