-- ===== src/Payment/Ledger/Receipts.antt =====
-- Histories: the receipts, the refunded amount, the captured amount and the amount.
use event_ticketing_soa.Common.{
  ℕ, ◌<◌, ◌≤◌, ◌+◌, ◌≡◌, false, Option, List, [], ◌∷◌, ok, arith, inl, inr, Result-cases, Ensures,
}
use event_ticketing_soa.Common.Text.{Text}
use event_ticketing_soa.Common.Money.{Decimal}
use event_ticketing_soa.Payment.Minor.{validate_money_positive}
use event_ticketing_soa.Payment.Rules.{validate_money}
use event_ticketing_soa.Payment.Values.{PaymentDraft, BookingPaymentEvidence, draft_from_request}
use event_ticketing_soa.Payment.Entity.{Payment, create}
use event_ticketing_soa.Payment.Invariant.{
  IsValid, ordered, authorize-Moves, capture-Moves, fail-Moves, cancel-Moves, mark_unknown-Moves,
  record_reconciliation_failure-Moves, refund-Refunds,
}
use event_ticketing_soa.Payment.Ledger.Operations.{Operation, perform, stored, total, history}

-- Of a valid payment, every operation that returns keeps the invariant and the amount, never
-- lowers the captured amount, and adds to the refunded amount exactly what its receipts say.
pub perform-total :
    (o : Operation) (now : ℕ) (p : Payment)
    → IsValid p
    → Ensures
        (λ rs p'.
          IsValid p'
          × (p'.amount ≡ p.amount)
          × (p.captured_amount ≤ p'.captured_amount)
          × (p'.refunded_amount ≡ p.refunded_amount + total rs))
        (perform o now p)
unfolding perform
perform-total (Operation.authorize r v reconciled) now p i =
    ground (arith, authorize-Moves r v now reconciled p i)
perform-total (Operation.capture r v direct reconciled) now p i =
    ground (arith, capture-Moves r v now direct reconciled p i)
perform-total (Operation.fail c t r v o reconciled) now p i =
    ground (arith, fail-Moves c t r v now o reconciled p i)
perform-total (Operation.cancel t r v reconciled) now p i =
    ground (arith, cancel-Moves t r v now reconciled p i)
perform-total (Operation.mark_unknown o t v r) now p i =
    ground (arith, mark_unknown-Moves o t v now r p i)
perform-total (Operation.record_reconciliation_failure t v due) now p i =
    ground (arith, record_reconciliation_failure-Moves t v now due p i)
perform-total (Operation.refund id d t r k v reconciled) now p i =
    ground (arith, refund-Refunds id d t r k v now reconciled p i)

stored-total :
    (o : Operation) (now : ℕ) (p : Payment)
    → IsValid p
    → let (rs, p') = stored p (perform o now p) in
      IsValid p'
      × (p'.amount ≡ p.amount)
      × (p.captured_amount ≤ p'.captured_amount)
      × (p'.refunded_amount ≡ p.refunded_amount + total rs)
stored-total o now p i = ground (arith, i, perform-total o now p i)

-- A history keeps the invariant and the amount of the payment, does not lower the captured amount,
-- and its receipts are what it adds to the refunded amount.
pub history-total :
    (os : List (Operation × ℕ)) (p : Payment)
    → IsValid p
    → let (n, q) = history os p in
      IsValid q
      × (q.amount ≡ p.amount)
      × (p.captured_amount ≤ q.captured_amount)
      × (q.refunded_amount ≡ p.refunded_amount + n)
unfolding history
history-total [] p i = ground (arith, i)
history-total ((o, now) ∷ os) p i =
    let p' = (stored p (perform o now p)).1 in
    let (i', a, c, r) = stored-total o now p i in ground (arith, a, c, r, history-total os p' i')

draft_from_request_positive :
    (sha256 : Text → Text) (b c : Text) (d : Decimal) (cur m pr : Text) (t : Option Text)
    → (e : Option BookingPaymentEvidence) {draft : PaymentDraft}
    → draft_from_request sha256 b c d cur m pr t e ≡ ok draft
    → 0 < draft.amount
unfolding draft_from_request
draft_from_request_positive sha256 b c d cur m pr t e h =
    elim (Result-cases (validate_money d "amount" false)) [
      | inl (n, k) ↦ ground (arith, validate_money_positive d "amount" k)
      | inr (x, k) ↦ ground arith
    ]

create-IsValid :
    (id : Text) (draft : PaymentDraft) (now : ℕ) {p : Payment}
    → 0 < draft.amount
    → create id draft now ≡ ok p
    → IsValid p × (p.amount ≡ draft.amount) × (p.refunded_amount ≡ 0)
unfolding create
create-IsValid id draft now h k = ground arith

-- After any history of a payment that was created from a request, the receipts of its refunds add
-- up to the refunded amount, which is at most the captured amount, which is at most the amount
-- that was requested.
pub receipts_balance :
    (sha256 : Text → Text) (b c : Text) (d : Decimal) (cur m pr : Text) (t : Option Text)
    → (e : Option BookingPaymentEvidence) (id : Text) (created : ℕ) (os : List (Operation × ℕ))
    → {draft : PaymentDraft} {p : Payment} → draft_from_request sha256 b c d cur m pr t e ≡ ok draft
    → create id draft created ≡ ok p
    → let (n, q) = history os p in
      (n ≡ q.refunded_amount)
      × (q.refunded_amount ≤ q.captured_amount)
      × (q.captured_amount ≤ q.amount)
      × (q.amount ≡ draft.amount)
receipts_balance sha256 b c d cur m pr t e id created os {draft} {p} h k =
    let (i, a, r) =
      create-IsValid id draft created (draft_from_request_positive sha256 b c d cur m pr t e h) k in
    let q = (history os p).1 in
    let (i', a', c', r') = history-total os p i in ground (arith, a, r, a', r', ordered q i')
