-- ===== src/Payment/Provider/Once.antt =====
-- A refund that the provider reports, and reports again.
use event_ticketing_soa.Common.{
  ℕ, ◌+◌, ◌-◌, ◌<◌, Bool, true, false, ◌≡◌, some, arith, inl, inr, Bool-cases, Result, Result-cases,
  ok, err, Ensures, ◌∙◌, ap, ltb, ◌==◌, String, Option-cases, value_or, raise_unless, pure, ◌>>◌,
}
use event_ticketing_soa.Common.Text.{Text, codes}
use event_ticketing_soa.Common.Money.{quantize_cents, equals_cents}
use event_ticketing_soa.Payment.Enums.{RefundKind, status_eq, status}
use event_ticketing_soa.Payment.Errors.{PaymentError, invalid}
use event_ticketing_soa.Payment.Rules.{validate_money}
use event_ticketing_soa.Payment.Values.{Refund}
use event_ticketing_soa.Payment.Entity.{Payment, refund, refund_checks, complete_outcome, advance}
use event_ticketing_soa.Payment.Provider.Outcome.{ProviderOutcome}
use event_ticketing_soa.Payment.Provider.Apply.{cents, refund_delta, apply_refund_outcome}

-- What a refund leaves of the payment, and what its receipt names.
abbrev Keeps : Payment → ℕ → Refund → Payment → Type 0
Keeps p n receipt q =
    (q.payment_id ≡ p.payment_id)
    × (q.provider ≡ p.provider)
    × (q.provider_reference ≡ p.provider_reference)
    × (q.refunded_amount ≡ p.refunded_amount + n)
    × (receipt.payment_id ≡ p.payment_id)

validate_money-cents :
    (n : ℕ) (f : String) (m : ℕ) → validate_money (cents n) f false ≡ ok m → m ≡ n
unfolding validate_money quantize_cents equals_cents
validate_money-cents n f m h = ground arith

refund_checks-cents :
    (n v : ℕ) (reconciled : Bool) (p : Payment) (m : ℕ)
    → refund_checks (cents n) v reconciled p ≡ ok m
    → m ≡ n
unfolding refund_checks
refund_checks-cents n v reconciled p m h =
    elim (Result-cases (validate_money (cents n) "refundAmount" false)) [
      | inl (x, k) ↦ ground (arith, validate_money-cents n "refundAmount" x k)
      | inr (e, k) ↦ ground arith
    ]

refund-Keeps :
    (id : Text) (n : ℕ) (t r : Text) (k : RefundKind) (v now : ℕ) (reconciled : Bool) (p : Payment)
    → Ensures (Keeps p n) (refund id (cents n) t r k v now reconciled p)
unfolding refund complete_outcome advance
refund-Keeps id n t r k v now reconciled p =
    elim (Result-cases (refund_checks (cents n) v reconciled p)) [
      | inr (e, h) ↦ rw h tt
      | inl (m, h) ↦ ground (arith, refund_checks-cents n v reconciled p m h)
    ]

-- The payment has come to what the provider observed.
abbrev pub Reaches : Payment → ProviderOutcome ℕ → Refund → Payment → Type 0
Reaches p o receipt q =
    (q.payment_id ≡ p.payment_id)
    × (q.provider ≡ p.provider)
    × (q.provider_reference ≡ p.provider_reference)
    × (receipt.payment_id ≡ p.payment_id)
    × (o.refunded_amount ≡ some q.refunded_amount)
    × (status_eq q.status o.status ≡ true)
    × (p.refunded_amount < q.refunded_amount)

-- The check of the status, after the refund.
status_checked :
    (P : Refund → Payment → Type 0) (o : ProviderOutcome ℕ)
    (x : Result PaymentError Refund × Payment)
    → Ensures (λ receipt q. status_eq q.status o.status ≡ true → P receipt q) x
    → Ensures {E = PaymentError} P (elim x.0 [
      | ok receipt ↦
          (raise_unless
                (status_eq (x.1).status o.status)
                (invalid "providerStatus does not match observedRefundedAmount")
              >> pure receipt)
            x.1
      | err e ↦ (err e, x.1)
    ])
status_checked P o (err e, q) h = tt
status_checked P o (ok receipt, q) h = elim (Bool-cases (status_eq q.status o.status)) [
  | inl k ↦ rw k (h k)
  | inr k ↦ rw k tt
]

with_status :
    (S : Payment → Type 0) (p : Payment) (n : ℕ) (x : Result PaymentError Refund × Payment)
    → 0 < n
    → Ensures (Keeps p n) x
    → Ensures (λ receipt q. S q → Keeps p n receipt q × S q × (0 < n)) x
with_status S p n (err e, q) z h = tt
with_status S p n (ok receipt, q) z h = λ k. (h, k, z)

reached :
    (p : Payment) (o : ProviderOutcome ℕ) (n : ℕ) (x : Result PaymentError Refund × Payment)
    → o.refunded_amount ≡ some n
    → ltb n p.refunded_amount ≡ false
    → Ensures
        (λ receipt q.
          Keeps p (n - p.refunded_amount) receipt q
          × (status_eq q.status o.status ≡ true)
          × (0 < n - p.refunded_amount))
        x
    → Ensures (Reaches p o) x
reached p o n (err e, q) h k f = tt
reached p o n (ok receipt, q) h k ((a, b, c, d, e), s, z) =
    let m : n ≡ q.refunded_amount = ground arith in (a, b, c, e, h ∙ ap some m, s, ground arith)

refund_delta-Keeps :
    (id : Text) (o : ProviderOutcome ℕ) (delta v now : ℕ) (reconciled : Bool) (p : Payment)
    → Ensures
        (λ receipt q. Keeps p delta receipt q × (status_eq q.status o.status ≡ true) × (0 < delta))
        (refund_delta id o delta v now reconciled p)
unfolding refund_delta
refund_delta-Keeps id o delta v now reconciled p = elim (Bool-cases (delta == 0)) [
  | inl z ↦ rw z tt
  | inr z ↦ elim (Option-cases o.provider_refund_reference) [
    | inl k ↦ rw (z, k) tt
    | inr (r, k) ↦
        let t = value_or o.reason (codes "provider reconciliation") in
        let call = refund id (cents delta) t r RefundKind.reconciliation v now reconciled p in
        rw (z, k)
          (status_checked
            (λ receipt q.
              Keeps p delta receipt q × (status_eq q.status o.status ≡ true) × (0 < delta))
            o call
            (with_status (λ q. status_eq q.status o.status ≡ true) p delta call (ground arith)
              (refund-Keeps id delta t r RefundKind.reconciliation v now reconciled p)))
  ]
]

apply_refund_outcome-Ensures :
    (P : Refund → Payment → Type 0) (id : Text) (o : ProviderOutcome ℕ) (v now : ℕ)
    (reconciled : Bool) (p : Payment)
    → ((n : ℕ)
        → o.refunded_amount ≡ some n
        → ltb n p.refunded_amount ≡ false
        → Ensures P (refund_delta id o (n - p.refunded_amount) v now reconciled p))
    → Ensures P (apply_refund_outcome id o v now reconciled p)
unfolding apply_refund_outcome
apply_refund_outcome-Ensures P id o v now reconciled p f = elim (Option-cases o.refunded_amount) [
  | inl h ↦ rw h tt
  | inr (n, h) ↦ elim (Bool-cases (ltb n p.refunded_amount)) [
    | inl k ↦ rw (h, k) tt
    | inr k ↦ rw (h, k) (f n h k)
  ]
]

pub apply_refund_outcome-Reaches :
    (id : Text) (o : ProviderOutcome ℕ) (v now : ℕ) (reconciled : Bool) (p : Payment)
    → Ensures (Reaches p o) (apply_refund_outcome id o v now reconciled p)
apply_refund_outcome-Reaches id o v now reconciled p =
    apply_refund_outcome-Ensures (Reaches p o) id o v now reconciled p λ n h k.
      reached p o n (refund_delta id o (n - p.refunded_amount) v now reconciled p) h k
        (refund_delta-Keeps id o (n - p.refunded_amount) v now reconciled p)
