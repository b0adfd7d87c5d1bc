-- ===== src/Payment/Provider/Twice.antt =====
-- The second delivery of a refund.
use event_ticketing_soa.Common.{
  ℕ, ◌<◌, Bool, true, false, ◌≡◌, Option, none, some, ◌∷◌, arith, refl, inl, inr, Bool-cases,
  Option-cases, Result, Result-cases, ok, err, ⊤, Ensures, sym, ◌∙◌, ap, subst, one_of, ◌&&◌,
}
use event_ticketing_soa.Common.Rows.{first}
use event_ticketing_soa.Common.Text.{Text, text_eq, text_eq_refl}
use event_ticketing_soa.Common.Money.{Decimal}
use event_ticketing_soa.Payment.Enums.{PaymentStatus, status_eq, status}
use event_ticketing_soa.Payment.Errors.{PaymentError}
use event_ticketing_soa.Payment.Values.{Refund}
use event_ticketing_soa.Payment.Entity.{
  Payment, provider_reference_matches, authorize, capture, fail, cancel,
}
use event_ticketing_soa.Payment.Provider.Outcome.{ProviderOutcome, refund_states, normalize_outcome}
use event_ticketing_soa.Payment.Provider.Guards.{
  Rows, RefundRow, get_payment_by_provider_reference, get_refund_by_provider_reference,
  ensure_payment_provider_reference_available, ensure_reference, guard_refund_outcome,
  guard_reference, guard_existing, is_noop, is_recorded,
}
use event_ticketing_soa.Payment.Provider.Apply.{
  with_value, apply_refund_outcome, apply_status, guard_outcome, apply_provider_outcome,
}
use event_ticketing_soa.Payment.Provider.Once.{Reaches, apply_refund_outcome-Reaches}

-- The receipt is stored.
abbrev pub with_receipt : Rows → Payment → Refund → Rows
with_receipt rows q receipt = record rows {
  refunds = record { provider = q.provider; refund = receipt } ∷ rows.refunds;
}

module _ (rows : Rows) (p q : Payment) (o : ProviderOutcome ℕ) (receipt : Refund)
    (same_id : q.payment_id ≡ p.payment_id) (same_provider : q.provider ≡ p.provider)
    (same_reference : q.provider_reference ≡ p.provider_reference)
    (receipt_id : receipt.payment_id ≡ p.payment_id)
    (observed : o.refunded_amount ≡ some q.refunded_amount)
    (more : p.refunded_amount < q.refunded_amount) where
  available_again :
      (r : Option Text)
      → ensure_payment_provider_reference_available rows p r ≡ ok tt
      → ensure_payment_provider_reference_available (with_receipt rows q receipt) q r ≡ ok tt
  unfolding ensure_payment_provider_reference_available get_payment_by_provider_reference
  available_again none h = refl
  available_again (some r) h = rw (same_id, same_provider) h

  guard_reference_again :
      (r : Option Text) → guard_reference p r ≡ ok tt → guard_reference q r ≡ ok tt
  unfolding guard_reference ensure_reference provider_reference_matches
  guard_reference_again none h = refl
  guard_reference_again (some r) h = rw same_reference h

  -- No refund had the reference before: its payment would be where the provider is.
  unused : (r : Option RefundRow) → guard_existing p o r ≡ ok tt → guard_existing q o r ≡ ok tt
  unfolding guard_existing
  unused none h = refl
  unused (some e) h = absurd (ground arith)

  own : (row : RefundRow) → row.refund ≡ receipt → guard_existing q o (some row) ≡ ok tt
  unfolding guard_existing
  own row e =
      let f : text_eq row.refund.payment_id q.payment_id ≡ true =
        ap (λ x. text_eq x.payment_id q.payment_id) e
        ∙ ap (λ x. text_eq x q.payment_id) (receipt_id ∙ sym same_id)
        ∙ text_eq_refl q.payment_id in
      ground arith

  -- The refund that has the reference now, if any: the receipt's, or the one from before.
  existing_again :
      (r : Text)
      → guard_existing p o (get_refund_by_provider_reference rows p.provider r) ≡ ok tt
      → guard_existing q o
          (get_refund_by_provider_reference (with_receipt rows q receipt) q.provider r)
        ≡ ok tt
  unfolding get_refund_by_provider_reference first
  existing_again r h =
      let row : RefundRow = record { provider = q.provider; refund = receipt } in
      elim (Bool-cases (text_eq q.provider q.provider && text_eq receipt.provider_reference r)) [
        | inl k ↦ rw k (own row refl)
        | inr k ↦ rw k (
            unused (get_refund_by_provider_reference rows q.provider r) (
              subst (λ x. guard_existing p o (get_refund_by_provider_reference rows x r) ≡ ok tt)
                (sym same_provider) h))
      ]

  guard_again :
      guard_refund_outcome rows p o ≡ ok tt
      → guard_refund_outcome (with_receipt rows q receipt) q o ≡ ok tt
  unfolding guard_refund_outcome
  guard_again h = elim (Result-cases (guard_reference p o.provider_reference)) [
    | inr (e, k) ↦ absurd (let l : guard_refund_outcome rows p o ≡ err e = rw k in cc)
    | inl (u, k) ↦ elim (Option-cases o.provider_refund_reference) [
      | inl l ↦ absurd (
          let m : guard_refund_outcome rows p o ≡ err PaymentError.attribute_error = rw (k, l) in
          cc)
      | inr (r, l) ↦
          let m : guard_refund_outcome rows p o
              ≡ guard_existing p o (get_refund_by_provider_reference rows p.provider r) =
            rw (k, l) in
          rw (guard_reference_again o.provider_reference k, l) (existing_again r (sym m ∙ h))
    ]
  ]

  noop_again :
      one_of o.status refund_states ≡ true
      → status_eq q.status o.status ≡ true
      → is_noop q o ≡ ok true
  unfolding is_noop is_recorded
  noop_again h k = ground arith

-- What a call that returned a receipt has gone through.
record Delivered (rows : Rows) (outcome : ProviderOutcome Decimal) (p q : Payment)
    (receipt : Refund) : Type 0 where
  normalized : ProviderOutcome ℕ
  normalizes : normalize_outcome outcome ≡ ok normalized
  available :
      ensure_payment_provider_reference_available rows p normalized.provider_reference ≡ ok tt
  guarded : guard_outcome rows p normalized ≡ ok tt
  refunds : one_of normalized.status refund_states ≡ true
  reaches : Reaches p normalized receipt q

-- The branches that return no receipt, and the one that does.
Receives : Payment → ProviderOutcome ℕ → Option Refund → Payment → Type 0
Receives p o m q =
    (receipt : Refund)
    → m ≡ some receipt
    → (one_of o.status refund_states ≡ true) × Reaches p o receipt q

no_receipt :
    (p : Payment) (o : ProviderOutcome ℕ) (x : Result PaymentError ⊤ × Payment)
    → Ensures {E = PaymentError}
        (Receives p o)
        (elim x.0 [ ok _ ↦ (ok none, x.1) | err e ↦ (err e, x.1) ])
unfolding Receives
no_receipt p o (ok u, q) = λ receipt h. absurd (cc)
no_receipt p o (err e, q) = tt

one_receipt :
    (p : Payment) (o : ProviderOutcome ℕ) (x : Result PaymentError Refund × Payment)
    → one_of o.status refund_states ≡ true
    → Ensures (Reaches p o) x
    → Ensures {E = PaymentError}
        (Receives p o)
        (elim x.0 [ ok r ↦ (ok (some r), x.1) | err e ↦ (err e, x.1) ])
unfolding Receives
one_receipt p o (ok r, q) s h =
    λ receipt e. let f : r ≡ receipt = cc in (s, subst (λ x. Reaches p o x q) f h)
one_receipt p o (err e, q) s h = tt

apply_status-Receives :
    (s : PaymentStatus) (id : Text) (o : ProviderOutcome ℕ) (v now : ℕ) (reconciled : Bool)
    (p : Payment)
    → o.status ≡ s
    → Ensures (Receives p o) (apply_status s id o v now reconciled p)
unfolding apply_status
apply_status-Receives PaymentStatus.authorized id o v now reconciled p e =
    no_receipt p o (with_value o.provider_reference (λ r. authorize r v now reconciled) p)
apply_status-Receives PaymentStatus.captured id o v now reconciled p e =
    no_receipt p o (with_value o.provider_reference (λ r. capture r v now true reconciled) p)
apply_status-Receives PaymentStatus.failed id o v now reconciled p e = no_receipt p o (
    with_value o.failure_code
      (λ code.
        with_value o.reason
          (λ text. fail code text o.provider_reference v now (some o.operation) reconciled))
      p)
apply_status-Receives PaymentStatus.cancelled id o v now reconciled p e =
    no_receipt p o
      (with_value o.reason (λ text. cancel text o.provider_reference v now reconciled) p)
apply_status-Receives PaymentStatus.pending id o v now reconciled p e = tt
apply_status-Receives PaymentStatus.unknown id o v now reconciled p e = tt
apply_status-Receives PaymentStatus.partially_refunded id o v now reconciled p e =
    one_receipt p o (apply_refund_outcome id o v now reconciled p)
      (ap (λ s. one_of s refund_states) e) (apply_refund_outcome-Reaches id o v now reconciled p)
apply_status-Receives PaymentStatus.refunded id o v now reconciled p e =
    one_receipt p o (apply_refund_outcome id o v now reconciled p)
      (ap (λ s. one_of s refund_states) e) (apply_refund_outcome-Reaches id o v now reconciled p)

received :
    (p q : Payment) (o : ProviderOutcome ℕ) (receipt : Refund)
    → Ensures {E = PaymentError} (Receives p o) (ok (some receipt), q)
    → (one_of o.status refund_states ≡ true) × Reaches p o receipt q
unfolding Receives
received p q o receipt h = h receipt refl

module _ (rows : Rows) (id : Text) (outcome : ProviderOutcome Decimal) (v now : ℕ)
    (reconciled : Bool) (p q : Payment) (receipt : Refund)
    (returns : apply_provider_outcome rows id outcome v now reconciled p
      ≡ (ok (some receipt), q)) where
  -- A call that raises, or does nothing, returns no receipt.
  not_refused :
      (e : PaymentError)
      → apply_provider_outcome rows id outcome v now reconciled p ≡ (err e, p)
      → Delivered rows outcome p q receipt
  not_refused e h = absurd (let k = sym h ∙ returns in cc)

  not_noop :
      apply_provider_outcome rows id outcome v now reconciled p ≡ (ok none, p)
      → Delivered rows outcome p q receipt
  not_noop h = absurd (let k = sym h ∙ returns in cc)

  delivered : Delivered rows outcome p q receipt
  unfolding apply_provider_outcome
  delivered = elim (Result-cases (normalize_outcome outcome)) [
    | inr (e, h) ↦ not_refused e (rw h)
    | inl (o, h) ↦
        elim (Result-cases
          (ensure_payment_provider_reference_available rows p o.provider_reference)) [
            | inr (e, i) ↦ not_refused e (rw (h, i))
            | inl (a, i) ↦ elim (Result-cases (guard_outcome rows p o)) [
              | inr (e, j) ↦ not_refused e (rw (h, i, j))
              | inl (b, j) ↦ elim (Result-cases (is_noop p o)) [
                | inr (e, k) ↦ not_refused e (rw (h, i, j, k))
                | inl (true, k) ↦ not_noop (rw (h, i, j, k))
                | inl (false, k) ↦
                    let l : apply_provider_outcome rows id outcome v now reconciled p
                        ≡ apply_status o.status id o v now reconciled p =
                      rw (h, i, j, k) in
                    let (s, r) = received p q o receipt (
                      subst (Ensures (Receives p o)) (sym l ∙ returns)
                        (apply_status-Receives o.status id o v now reconciled p refl)) in
                    record {
                      normalized = o;
                      normalizes = h;
                      available = i;
                      guarded = j;
                      refunds = s;
                      reaches = r;
                    }
              ]
            ]
          ]
  ]

-- No double refund: after a provider's outcome has refunded a payment and its receipt is stored, the
-- same outcome, delivered again at any time, with any expected version and whether or not it comes
-- from a reconciliation, returns no receipt and writes nothing.
pub apply_provider_outcome-twice :
    (rows : Rows) (id id' : Text) (outcome : ProviderOutcome Decimal) (v v' now later : ℕ)
    (reconciled reconciled' : Bool) (p q : Payment) (receipt : Refund)
    → apply_provider_outcome rows id outcome v now reconciled p ≡ (ok (some receipt), q)
    → apply_provider_outcome (with_receipt rows q receipt) id' outcome v' later reconciled' q
      ≡ (ok none, q)
unfolding apply_provider_outcome guard_outcome
apply_provider_outcome-twice rows id id' outcome v v' now later reconciled reconciled' p q receipt
      h =
    let d = delivered rows id outcome v now reconciled p q receipt h in
    let o = d.normalized in
    let (a, b, c, e, f, s, m) = d.reaches in
    let guarded : guard_refund_outcome rows p o ≡ ok tt = sym (rw (d.refunds)) ∙ d.guarded in
    rw (
      d.normalizes,
      available_again rows p q o receipt a b c e f m o.provider_reference d.available,
      d.refunds,
      guard_again rows p q o receipt a b c e f m guarded,
      noop_again rows p q o receipt a b c e f m d.refunds s,
    )
