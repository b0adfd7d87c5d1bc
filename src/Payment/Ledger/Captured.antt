-- ===== src/Payment/Ledger/Captured.antt =====
-- A captured payment through the operations, by its status and its last stable status.
use event_ticketing_soa.Common.{
  ℕ, ◌≡◌, true, false, Bool, Option, none, some, List, [], ◌∷◌, Result, ok, arith, inl, inr,
  Result-cases, Ensures, one_of, or_else,
}
use event_ticketing_soa.Common.Text.{Text}
use event_ticketing_soa.Common.Money.{Decimal}
use event_ticketing_soa.Payment.Enums.{PaymentStatus, ProviderOperation, RefundKind, status}
use event_ticketing_soa.Payment.Errors.{PaymentError}
use event_ticketing_soa.Payment.Rules.{ensure_transition_allowed}
use event_ticketing_soa.Payment.Entity.{
  Payment, prepare_resolution, resolve, outcome_checks, unknown_checks, complete_outcome, advance,
  authorize, capture, fail, cancel, mark_unknown, become_unknown, already_unknown,
  record_reconciliation_failure, refund,
}
use event_ticketing_soa.Payment.Invariant.{IsValid, when_some-SameMoney}
use event_ticketing_soa.Payment.Ledger.Operations.{Operation, perform, stored, history}
use event_ticketing_soa.Payment.Ledger.Receipts.{history-total}

-- The statuses of a payment whose money was taken, returned or not.
abbrev pub is_taken : PaymentStatus → Bool
is_taken s =
    one_of s
      (PaymentStatus.captured ∷ PaymentStatus.partially_refunded ∷ PaymentStatus.refunded ∷ [])

-- At UNKNOWN the last stable status decides.
abbrev pub is_captured_at : PaymentStatus → Option PaymentStatus → Bool
is_captured_at PaymentStatus.unknown none = false
is_captured_at PaymentStatus.unknown (some s) = is_taken s
is_captured_at s _ = is_taken s

-- The payment is CAPTURED, PARTIALLY_REFUNDED or REFUNDED, or was so when it became UNKNOWN.
abbrev pub is_captured : Payment → Bool
is_captured p = is_captured_at p.status p.last_stable_status

-- A call that returns leaves a captured payment.
abbrev StaysCaptured : {A : Type 0} → Result PaymentError A × Payment → Type 0
StaysCaptured = Ensures (λ _ q. is_captured q ≡ true)

prepare_resolution_taken :
    (v : ℕ) (o : Option ProviderOperation) (reconciled : Bool) (p : Payment) {s : PaymentStatus}
    → is_captured p ≡ true
    → prepare_resolution v o reconciled p ≡ ok s
    → is_taken s ≡ true
unfolding prepare_resolution resolve
prepare_resolution_taken v o reconciled p i h = ground arith

-- A captured payment is not authorized, failed or cancelled.
outcome_checks_refuses :
    (t : PaymentStatus) (v : ℕ) (o : Option ProviderOperation) (reconciled : Bool) (p : Payment)
    → is_captured p ≡ true
    → one_of t (PaymentStatus.authorized ∷ PaymentStatus.failed ∷ PaymentStatus.cancelled ∷ [])
      ≡ true
    → outcome_checks t v o reconciled p ≡ ok tt
    → false ≡ true
unfolding outcome_checks ensure_transition_allowed
outcome_checks_refuses t v o reconciled p i k h =
    elim (Result-cases (prepare_resolution v o reconciled p)) [
      | inl (s, e) ↦ ground (arith, prepare_resolution_taken v o reconciled p i e)
      | inr (x, e) ↦ ground arith
    ]

authorize_captured :
    (r : Text) (v now : ℕ) (reconciled : Bool) (p : Payment)
    → is_captured p ≡ true
    → StaysCaptured (authorize r v now reconciled p)
unfolding authorize
authorize_captured r v now reconciled p i = ground (
  arith,
  outcome_checks_refuses PaymentStatus.authorized v (some ProviderOperation.authorize) reconciled p
      i,
)

fail_captured :
    (c t : Text) (r : Option Text) (v now : ℕ) (o : Option ProviderOperation) (reconciled : Bool)
    → (p : Payment) → is_captured p ≡ true
    → StaysCaptured (fail c t r v now o reconciled p)
unfolding fail
fail_captured c t r v now o reconciled p i = ground (
  arith,
  outcome_checks_refuses PaymentStatus.failed v (or_else o p.pending_operation) reconciled p i,
)

cancel_captured :
    (t : Text) (r : Option Text) (v now : ℕ) (reconciled : Bool) (p : Payment)
    → is_captured p ≡ true
    → StaysCaptured (cancel t r v now reconciled p)
unfolding cancel
cancel_captured t r v now reconciled p i = ground (
  arith,
  outcome_checks_refuses PaymentStatus.cancelled v (some ProviderOperation.cancel) reconciled p i,
)

capture_captured :
    (r : Text) (v now : ℕ) (direct reconciled : Bool) (p : Payment)
    → StaysCaptured (capture r v now direct reconciled p)
unfolding capture complete_outcome advance
capture_captured r v now direct reconciled p = ground arith

refund_captured :
    (id : Text) (d : Decimal) (t r : Text) (k : RefundKind) (v now : ℕ) (reconciled : Bool)
    → (p : Payment) → StaysCaptured (refund id d t r k v now reconciled p)
unfolding refund complete_outcome advance
refund_captured id d t r k v now reconciled p = ground arith

unknown_checks_known :
    (p : Payment)
    → is_captured p ≡ true
    → unknown_checks p.status ≡ ok tt
    → is_taken p.status ≡ true
unfolding unknown_checks ensure_transition_allowed
unknown_checks_known p i h = ground arith

become_unknown_captured :
    (o : ProviderOperation) (t : Text) (now : ℕ) (r : Option Text) (p : Payment)
    → is_captured p ≡ true
    → StaysCaptured (become_unknown o t now r p)
unfolding become_unknown advance
become_unknown_captured o t now r p i =
    ground (arith, unknown_checks_known p i, when_some-SameMoney r p)

mark_unknown_captured :
    (o : ProviderOperation) (t : Text) (v now : ℕ) (r : Option Text) (p : Payment)
    → is_captured p ≡ true
    → StaysCaptured (mark_unknown o t v now r p)
unfolding mark_unknown already_unknown
mark_unknown_captured o t v now r p i = ground (arith, become_unknown_captured o t now r p i)

record_reconciliation_failure_captured :
    (t : Text) (v now : ℕ) (due : Option ℕ) (p : Payment)
    → is_captured p ≡ true
    → StaysCaptured (record_reconciliation_failure t v now due p)
unfolding record_reconciliation_failure advance
record_reconciliation_failure_captured t v now due p i = ground arith

perform_captured :
    (o : Operation) (now : ℕ) (p : Payment) → is_captured p ≡ true → StaysCaptured (perform o now p)
unfolding perform
perform_captured (Operation.authorize r v reconciled) now p i =
    ground (arith, authorize_captured r v now reconciled p i)
perform_captured (Operation.capture r v direct reconciled) now p i =
    ground (arith, capture_captured r v now direct reconciled p)
perform_captured (Operation.fail c t r v o reconciled) now p i =
    ground (arith, fail_captured c t r v now o reconciled p i)
perform_captured (Operation.cancel t r v reconciled) now p i =
    ground (arith, cancel_captured t r v now reconciled p i)
perform_captured (Operation.mark_unknown o t v r) now p i =
    ground (arith, mark_unknown_captured o t v now r p i)
perform_captured (Operation.record_reconciliation_failure t v due) now p i =
    ground (arith, record_reconciliation_failure_captured t v now due p i)
perform_captured (Operation.refund id d t r k v reconciled) now p i =
    ground (arith, refund_captured id d t r k v now reconciled p)

stored_captured :
    (o : Operation) (now : ℕ) (p : Payment)
    → is_captured p ≡ true
    → is_captured (stored p (perform o now p)).1 ≡ true
stored_captured o now p i = ground (arith, i, perform_captured o now p i)

history-is_captured :
    (os : List (Operation × ℕ)) (p : Payment)
    → is_captured p ≡ true
    → is_captured (history os p).1 ≡ true
unfolding history
history-is_captured [] p i = i
history-is_captured ((o, now) ∷ os) p i =
    history-is_captured os (stored p (perform o now p)).1 (stored_captured o now p i)

captured-amount : (p : Payment) → IsValid p → is_captured p ≡ true → p.captured_amount ≡ p.amount
captured-amount p i h = ground (arith, i.stable)

-- What is captured stays captured: a valid payment that is CAPTURED, PARTIALLY_REFUNDED or REFUNDED,
-- or that was so when it became UNKNOWN, is so after every history of operations, whatever outcomes
-- the provider reports, and its captured amount is then the amount that it had at the start.
pub history_captured :
    (os : List (Operation × ℕ)) (p : Payment)
    → IsValid p
    → is_captured p ≡ true
    → let q = (history os p).1 in (is_captured q ≡ true) × (q.captured_amount ≡ p.amount)
history_captured os p i h =
    let (i', a, c, r) = history-total os p i in
    let k = history-is_captured os p h in
    (k, ground (arith, a, captured-amount (history os p).1 i' k))
