-- ===== src/Payment/Invariant/Outcomes.antt =====
-- The operations other than a refund keep the invariant, the amount and what is refunded.
use event_ticketing_soa.Common.{
  ℕ, when_some, ◌<◌, ◌≤◌, ◌+◌, ◌≡◌, or_else, Bool, Option, none, some, arith, inl, inr,
  Result-cases,
}
use event_ticketing_soa.Common.Text.{Text}
use event_ticketing_soa.Payment.Enums.{PaymentStatus, ProviderOperation}
use event_ticketing_soa.Payment.Rules.{validate_reason, validate_identifier}
use event_ticketing_soa.Payment.Entity.{
  Payment, set_provider_reference, complete_outcome, advance, authorize, capture, fail, cancel,
  mark_unknown, become_unknown, already_unknown, record_reconciliation_failure,
}
use event_ticketing_soa.Payment.Invariant.Defs.{IsValid, ByStatus, SameMoney, Moves}
use event_ticketing_soa.Payment.Invariant.Guards.{
  outcome_checks_accepts, capture_checks_accepts, unknown_checks_accepts,
}

pub set_provider_reference-SameMoney :
    (r : Text) (p : Payment) → SameMoney p (set_provider_reference r p).1
unfolding set_provider_reference
set_provider_reference-SameMoney r p = ground arith

pub when_some-SameMoney :
    (r : Option Text) (p : Payment) → SameMoney p (when_some r set_provider_reference p).1
when_some-SameMoney none p = ground arith
when_some-SameMoney (some r) p = set_provider_reference-SameMoney r p

pub complete_outcome-SameMoney :
    (now : ℕ) (reconciled : Bool) (p : Payment)
    → let p' = (complete_outcome now reconciled p).1 in
      (p'.status ≡ p.status)
      × (p'.amount ≡ p.amount)
      × (p'.captured_amount ≡ p.captured_amount)
      × (p'.refunded_amount ≡ p.refunded_amount)
unfolding complete_outcome advance
complete_outcome-SameMoney now reconciled p = ground arith

-- The amounts of a valid payment are in order.
pub ordered :
    (p : Payment)
    → IsValid p
    → (p.refunded_amount ≤ p.captured_amount) × (p.captured_amount ≤ p.amount)
ordered p i = ground (arith, i.stable)

-- A payment whose new status has its amounts is valid once the outcome is complete.
pub complete_outcome-Moves :
    (n now : ℕ) (reconciled : Bool) (p p' : Payment)
    → 0 < p.amount
    → p'.amount ≡ p.amount
    → p.captured_amount ≤ p'.captured_amount
    → p'.refunded_amount ≡ p.refunded_amount + n
    → ByStatus p'.status p'.amount p'.captured_amount p'.refunded_amount
    → Moves n p (complete_outcome now reconciled p')
unfolding complete_outcome advance
complete_outcome-Moves n now reconciled p p' a b c d e = ground arith

pub authorize-Moves :
    (r : Text) (v now : ℕ) (reconciled : Bool) (p : Payment)
    → IsValid p
    → Moves 0 p (authorize r v now reconciled p)
unfolding authorize
authorize-Moves r v now reconciled p i =
    let p' = (set_provider_reference r p).1 in
    let q = record p' {
      status = PaymentStatus.authorized;
      authorized_at = or_else p'.authorized_at (some now);
    } in
    ground (
      arith,
      i.positive,
      set_provider_reference-SameMoney r p,
      outcome_checks_accepts PaymentStatus.authorized v (some ProviderOperation.authorize)
          reconciled p i,
      complete_outcome-Moves 0 now reconciled p q,
    )

pub capture-Moves :
    (r : Text) (v now : ℕ) (direct reconciled : Bool) (p : Payment)
    → IsValid p
    → Moves 0 p (capture r v now direct reconciled p)
unfolding capture
capture-Moves r v now direct reconciled p i =
    let p' = (set_provider_reference r p).1 in
    let q = record p' {
      status = PaymentStatus.captured;
      captured_amount = p'.amount;
      captured_at = or_else p'.captured_at (some now);
    } in
    ground (
      arith,
      i.positive,
      ordered p i,
      set_provider_reference-SameMoney r p,
      capture_checks_accepts v direct reconciled p i,
      complete_outcome-Moves 0 now reconciled p q,
    )

pub fail-Moves :
    (c t : Text) (r : Option Text) (v now : ℕ) (o : Option ProviderOperation) (reconciled : Bool)
    → (p : Payment) → IsValid p
    → Moves 0 p (fail c t r v now o reconciled p)
unfolding fail
fail-Moves c t r v now o reconciled p i =
    let p' = (when_some r set_provider_reference p).1 in
    elim (Result-cases (validate_identifier c "failureCode" 128)) [
      | inl (code, h) ↦ elim (Result-cases (validate_reason t "reason")) [
        | inl (text, h') ↦
            let q = record p' {
              failure_code = some code;
              failure_reason = some text;
              status = PaymentStatus.failed;
            } in
            ground (
              arith,
              i.positive,
              when_some-SameMoney r p,
              outcome_checks_accepts PaymentStatus.failed v (or_else o p.pending_operation)
                  reconciled p i,
              complete_outcome-Moves 0 now reconciled p q,
            )
        | inr (x, h') ↦ ground arith
      ]
      | inr (x, h) ↦ ground arith
    ]

pub cancel-Moves :
    (t : Text) (r : Option Text) (v now : ℕ) (reconciled : Bool) (p : Payment)
    → IsValid p
    → Moves 0 p (cancel t r v now reconciled p)
unfolding cancel
cancel-Moves t r v now reconciled p i =
    let p' = (when_some r set_provider_reference p).1 in
    elim (Result-cases (validate_reason t "reason")) [
      | inl (text, h) ↦
          let q = record p' {
            cancellation_reason = some text;
            status = PaymentStatus.cancelled;
            cancelled_at = or_else p'.cancelled_at (some now);
          } in
          ground (
            arith,
            i.positive,
            when_some-SameMoney r p,
            outcome_checks_accepts PaymentStatus.cancelled v (some ProviderOperation.cancel)
                reconciled p i,
            complete_outcome-Moves 0 now reconciled p q,
          )
      | inr (x, h) ↦ ground arith
    ]

become_unknown-Moves :
    (o : ProviderOperation) (t : Text) (now : ℕ) (r : Option Text) (p : Payment)
    → IsValid p
    → Moves 0 p (become_unknown o t now r p)
unfolding become_unknown advance
become_unknown-Moves o t now r p i =
    ground (arith, i.positive, i.stable, unknown_checks_accepts p, when_some-SameMoney r p)

pub mark_unknown-Moves :
    (o : ProviderOperation) (t : Text) (v now : ℕ) (r : Option Text) (p : Payment)
    → IsValid p
    → Moves 0 p (mark_unknown o t v now r p)
unfolding mark_unknown already_unknown
mark_unknown-Moves o t v now r p i = ground (arith, become_unknown-Moves o t now r p i)

pub record_reconciliation_failure-Moves :
    (t : Text) (v now : ℕ) (due : Option ℕ) (p : Payment)
    → IsValid p
    → Moves 0 p (record_reconciliation_failure t v now due p)
unfolding record_reconciliation_failure advance
record_reconciliation_failure-Moves t v now due p i = ground (arith, i.positive, i.stable)
