-- ===== src/Booking/Invariant/Obligations.antt =====
-- The arithmetic of obligations: what evidence may do to the payment and the reservation, and that
-- the recorded action goes on covering what is owed.
use event_ticketing_soa.Common.{
  ℕ, ◌≡◌, Bool, true, ◌&&◌, ◌||◌, Result, ok, err, ⊤, ◌>>◌, Ensures, arith,
}
use event_ticketing_soa.Booking.Enums.{
  PaymentStatus, ReservationEvidenceStatus, CompensationAction, payment_status_eq,
  reservation_status_eq,
}
use event_ticketing_soa.Booking.Errors.{BookingError}
use event_ticketing_soa.Booking.Values.{CompensationEvidence}
use event_ticketing_soa.Booking.Entity.{
  Booking, Method, refund_required, is_unresolved, required_action, settled_action,
  required_compensation_action, requirements_satisfied, resolve_payment_block, release_block,
  refund_block, reference_block, apply_compensation_evidence, mark_compensation_pending,
}
use event_ticketing_soa.Booking.Invariant.Defs.{covers, owes_nothing}

-- A settled payment stays as it is or, where a refund is owed, is refunded.
unfoldable pub payment_evidence : PaymentStatus → PaymentStatus → Bool
unfolding is_unresolved refund_required
payment_evidence p p' =
    is_unresolved p
    || payment_status_eq p' p
    || (refund_required p && payment_status_eq p' PaymentStatus.refunded)

-- A reservation stays as it is or is released.
unfoldable pub reservation_evidence : ReservationEvidenceStatus → ReservationEvidenceStatus → Bool
reservation_evidence r r' =
    reservation_status_eq r' r || reservation_status_eq r' ReservationEvidenceStatus.released

payment_evidence_trans :
    (p q s : PaymentStatus)
    → payment_evidence p q ≡ true
    → payment_evidence q s ≡ true
    → payment_evidence p s ≡ true
unfolding payment_evidence
payment_evidence_trans p q s h k = ground arith

-- What each block of evidence does, if it returns.
abbrev pub Evidence : Booking → Result BookingError ⊤ × Booking → Type 0
Evidence b = Ensures (λ _ b'.
    (payment_evidence b.payment_status b'.payment_status ≡ true)
    × (reservation_evidence b.reservation_status b'.reservation_status ≡ true))

resolve_payment_block-Evidence :
    (e : CompensationEvidence) (now : ℕ) (b : Booking) → Evidence b (resolve_payment_block e now b)
unfolding resolve_payment_block payment_evidence reservation_evidence
resolve_payment_block-Evidence e now b = ground arith

release_block-Evidence :
    (e : CompensationEvidence) (now : ℕ) (b : Booking) → Evidence b (release_block e now b)
unfolding release_block payment_evidence reservation_evidence
release_block-Evidence e now b = ground arith

refund_block-Evidence :
    (e : CompensationEvidence) (now : ℕ) (b : Booking) → Evidence b (refund_block e now b)
unfolding refund_block payment_evidence reservation_evidence
refund_block-Evidence e now b = ground arith

reference_block-Evidence :
    (e : CompensationEvidence) (b : Booking) → Evidence b (reference_block e b)
unfolding reference_block payment_evidence reservation_evidence
reference_block-Evidence e b = ground arith

reservation_evidence_trans :
    (p q s : ReservationEvidenceStatus)
    → reservation_evidence p q ≡ true
    → reservation_evidence q s ≡ true
    → reservation_evidence p s ≡ true
unfolding reservation_evidence
reservation_evidence_trans p q s h k = ground arith

Evidence-trans :
    (b s : Booking) (r : Result BookingError ⊤ × Booking)
    → Evidence b (ok tt, s)
    → Evidence s r
    → Evidence b r
Evidence-trans b s (ok a, t) h k = (
  payment_evidence_trans b.payment_status s.payment_status t.payment_status h.0 k.0,
  reservation_evidence_trans b.reservation_status s.reservation_status t.reservation_status h.1 k.1,
)
Evidence-trans b s (err e, t) h k = tt

>>-Evidence :
    (m n : Method ⊤)
    → ((b : Booking) → Evidence b (m b))
    → ((b : Booking) → Evidence b (n b))
    → (b : Booking) → Evidence b ((m >> n) b)
>>-Evidence m n p q b = bound (m b) (p b)
  where
    bound :
        (r : Result BookingError ⊤ × Booking)
        → Evidence b r
        → Evidence b (◌>>◌ {E = BookingError} {S = Booking} (λ _. r) n b)
    bound (ok a, s) h = Evidence-trans b s (n s) h (q s)
    bound (err e, s) h = tt

pub apply_compensation_evidence-Evidence :
    (e : CompensationEvidence) (now : ℕ) (b : Booking)
    → Evidence b (apply_compensation_evidence e now b)
unfolding apply_compensation_evidence
apply_compensation_evidence-Evidence e now =
    >>-Evidence (resolve_payment_block e now)
      (release_block e now >> (refund_block e now >> reference_block e))
      (resolve_payment_block-Evidence e now)
      (>>-Evidence (release_block e now) (refund_block e now >> reference_block e)
        (release_block-Evidence e now)
        (>>-Evidence (refund_block e now) (reference_block e) (refund_block-Evidence e now)
          (reference_block-Evidence e)))

pub evidence_of :
    (e : CompensationEvidence) (now : ℕ) (b : Booking)
    → (apply_compensation_evidence e now b).0 ≡ ok tt
    → let b' = (apply_compensation_evidence e now b).1 in
      (payment_evidence b.payment_status b'.payment_status ≡ true)
      × (reservation_evidence b.reservation_status b'.reservation_status ≡ true)
evidence_of e now b h = ground (arith, apply_compensation_evidence-Evidence e now b)

-- Boolean facts, by cases on the statuses.
pub covers-required :
    (p : PaymentStatus) (r : ReservationEvidenceStatus) → covers (required_action p r) p r ≡ true
unfolding covers required_action
covers-required p r = ground arith

pub covers-owes_nothing :
    (a : CompensationAction) (b : Booking)
    → covers a b.payment_status b.reservation_status ≡ true
    → requirements_satisfied a b ≡ true
    → owes_nothing b.payment_status b.reservation_status ≡ true
unfolding covers requirements_satisfied owes_nothing
covers-owes_nothing a b h k = ground arith

pub covers-settled :
    (a : CompensationAction) (b b' : Booking)
    → covers a b.payment_status b.reservation_status ≡ true
    → payment_evidence b.payment_status b'.payment_status ≡ true
    → reservation_evidence b.reservation_status b'.reservation_status ≡ true
    → covers (settled_action a b') b'.payment_status b'.reservation_status ≡ true
unfolding covers payment_evidence reservation_evidence required_compensation_action required_action
covers-settled a b b' h k l = ground arith

-- Marking what is pending keeps the cover.
pub mark_compensation_pending-covers :
    (a : CompensationAction) (b : Booking)
    → covers a b.payment_status b.reservation_status ≡ true
    → let b' = (mark_compensation_pending a b).1 in
      covers a b'.payment_status b'.reservation_status ≡ true
unfolding mark_compensation_pending covers
mark_compensation_pending-covers a b h = ground arith
