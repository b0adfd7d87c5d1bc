-- ===== src/Booking/Frame.antt =====
-- What the private helpers of the aggregate leave alone, and what they make of the payment and the
-- reservation.
use event_ticketing_soa.Common.{
  ℕ, ◌≡◌, Option, none, some, Result, ok, err, ⊤, arith, ◌∙◌, ◌>>=◌, ◌>>◌,
}
use event_ticketing_soa.Common.Text.{Text}
use event_ticketing_soa.Booking.Enums.{PaymentStatus, CompensationAction}
use event_ticketing_soa.Booking.Errors.{BookingError}
use event_ticketing_soa.Booking.Values.{CompensationEvidence}
use event_ticketing_soa.Booking.Entity.{
  Booking, Method, resolve_payment_block, release_block, refund_block, reference_block,
  apply_compensation_evidence, mark_compensation_pending, apply_payment_outcome,
  cancel_payment_block, compensation_reason_block,
}

-- The fields that evidence never writes.
pub record SameFrame (b b' : Booking) : Type 0 where
  pub status : b'.status ≡ b.status
  pub resource_version : b'.resource_version ≡ b.resource_version
  pub items : b'.items ≡ b.items
  pub reservation_id : b'.reservation_id ≡ b.reservation_id
  pub payment_id : b'.payment_id ≡ b.payment_id
  pub ticket_ids : b'.ticket_ids ≡ b.ticket_ids
  pub compensation_status : b'.compensation_status ≡ b.compensation_status
  pub compensation_action : b'.compensation_action ≡ b.compensation_action
  pub intended_terminal_status : b'.intended_terminal_status ≡ b.intended_terminal_status

SameFrame-trans : (a b c : Booking) → SameFrame a b → SameFrame b c → SameFrame a c
SameFrame-trans a b c p q = record {
  status = q.status ∙ p.status;
  resource_version = q.resource_version ∙ p.resource_version;
  items = q.items ∙ p.items;
  reservation_id = q.reservation_id ∙ p.reservation_id;
  payment_id = q.payment_id ∙ p.payment_id;
  ticket_ids = q.ticket_ids ∙ p.ticket_ids;
  compensation_status = q.compensation_status ∙ p.compensation_status;
  compensation_action = q.compensation_action ∙ p.compensation_action;
  intended_terminal_status = q.intended_terminal_status ∙ p.intended_terminal_status;
}

SameFrame-refl : (b : Booking) → SameFrame b b
SameFrame-refl b = ground arith

-- Sequencing keeps the frame.
>>=-SameFrame :
    (m : Method ⊤) (k : ⊤ → Method ⊤)
    → ((b : Booking) → SameFrame b (m b).1)
    → ((b : Booking) → SameFrame b (k tt b).1)
    → (b : Booking) → SameFrame b ((m >>= k) b).1
>>=-SameFrame m k p q b = bound (m b) (p b)
  where
    bound :
        (r : Result BookingError ⊤ × Booking)
        → SameFrame b r.1
        → SameFrame b (◌>>=◌ {E = BookingError} {S = Booking} (λ _. r) k b).1
    bound (ok a, s) h = SameFrame-trans b s (k a s).1 h (q s)
    bound (err e, s) h = h

resolve_payment_block-SameFrame :
    (e : CompensationEvidence) (now : ℕ) (b : Booking)
    → SameFrame b (resolve_payment_block e now b).1
unfolding resolve_payment_block
resolve_payment_block-SameFrame e now b = ground arith

release_block-SameFrame :
    (e : CompensationEvidence) (now : ℕ) (b : Booking) → SameFrame b (release_block e now b).1
unfolding release_block
release_block-SameFrame e now b = ground arith

refund_block-SameFrame :
    (e : CompensationEvidence) (now : ℕ) (b : Booking) → SameFrame b (refund_block e now b).1
unfolding refund_block
refund_block-SameFrame e now b = ground arith

reference_block-SameFrame :
    (e : CompensationEvidence) (b : Booking) → SameFrame b (reference_block e b).1
unfolding reference_block
reference_block-SameFrame e b = ground arith

pub apply_compensation_evidence-SameFrame :
    (e : CompensationEvidence) (now : ℕ) (b : Booking)
    → SameFrame b (apply_compensation_evidence e now b).1
unfolding apply_compensation_evidence
apply_compensation_evidence-SameFrame e now =
    >>=-SameFrame (resolve_payment_block e now)
      (λ _. release_block e now >> (refund_block e now >> reference_block e))
      (resolve_payment_block-SameFrame e now)
      (>>=-SameFrame (release_block e now) (λ _. refund_block e now >> reference_block e)
        (release_block-SameFrame e now)
        (>>=-SameFrame (refund_block e now) (λ _. reference_block e) (refund_block-SameFrame e now)
          (reference_block-SameFrame e)))

pub mark_compensation_pending-SameFrame :
    (a : CompensationAction) (b : Booking) → SameFrame b (mark_compensation_pending a b).1
unfolding mark_compensation_pending
mark_compensation_pending-SameFrame a b = ground arith

pub apply_payment_outcome-SameFrame :
    (p : PaymentStatus) (now : ℕ) (r f : Option Text) (b : Booking)
    → SameFrame b (apply_payment_outcome p now r f b).1
unfolding apply_payment_outcome
apply_payment_outcome-SameFrame p now r f b = ground arith

pub cancel_payment_block-SameFrame :
    (p : Option PaymentStatus) (now : ℕ) (b : Booking)
    → SameFrame b (cancel_payment_block p now b).1
unfolding cancel_payment_block
cancel_payment_block-SameFrame p now b = ground arith

pub compensation_reason_block-SameFrame :
    (r : Option Text) (b : Booking) → SameFrame b (compensation_reason_block r b).1
unfolding compensation_reason_block
compensation_reason_block-SameFrame none b = SameFrame-refl b
compensation_reason_block-SameFrame (some r) b = ground arith
