-- ===== src/Booking/Invariant/Saga.antt =====
-- The commands that fail, cancel and compensate keep the invariant.
use event_ticketing_soa.Common.{
  ℕ, ◌≤◌, ◌≡◌, true, Option, none, some, arith, Result-cases, inl, inr, value_or, is_some, ok,
  subst, ◌≢◌, ◌>>◌, ◌∙◌, refl,
}
use event_ticketing_soa.Common.Text.{Text}
use event_ticketing_soa.Booking.Enums.{
  BookingStatus, PaymentStatus, CompensationStatus, CompensationAction, ReservationEvidenceStatus,
}
use event_ticketing_soa.Booking.Values.{CompensationEvidence, no_evidence}
use event_ticketing_soa.Booking.Rules.{validate_reason}
use event_ticketing_soa.Booking.Frame.{
  apply_compensation_evidence-SameFrame, cancel_payment_block-SameFrame,
  compensation_reason_block-SameFrame, mark_compensation_pending-SameFrame,
}
use event_ticketing_soa.Booking.Entity.{
  Booking, apply_compensation_evidence, begin_or_complete, fail, cancel, record_compensation,
  complete_transition, begin_compensation, settle, settled_action, complete_compensation,
  required_compensation_action, requirements_satisfied, fail_checks, cancel_checks,
  cancel_payment_block, compensation_reason_block, note_action, close_compensation,
  release_required, touch, record_compensation_checks,
}
use event_ticketing_soa.Booking.Invariant.Defs.{IsValid, owes_nothing, is_closing}
use event_ticketing_soa.Booking.Invariant.Accepts.{record_compensation_checks_accepts}
use event_ticketing_soa.Booking.Invariant.Obligations.{
  covers-owes_nothing, covers-settled, reservation_evidence, evidence_of,
}
use event_ticketing_soa.Booking.Invariant.Settling.{
  Keeps, IsSettling, IsWaiting, IsValid-IsWaiting, IsValid-IsSettling, note_action-Keeps,
  note_action-fields, SameFrame-IsWaiting, mark-IsSettling, required-IsSettling,
}

complete_transition-Keeps :
    (t : BookingStatus) (a : CompensationAction) (now : ℕ) (b : Booking)
    → is_closing t ≡ true
    → IsSettling a b
    → owes_nothing b.payment_status b.reservation_status ≡ true
    → Keeps (complete_transition t a now b)
unfolding complete_transition
complete_transition-Keeps t a now b c i o = ground arith

begin_compensation-Keeps :
    (t : BookingStatus) (s : CompensationStatus) (a : CompensationAction) (b : Booking)
    → is_closing t ≡ true
    → IsSettling a b
    → Keeps (begin_compensation t s a b)
unfolding begin_compensation
begin_compensation-Keeps t s a b c i =
    let b' = record b {
      status = BookingStatus.compensation_pending;
      compensation_status = s;
      compensation_action = a;
      intended_terminal_status = some t;
    } in
    ground (
      arith,
      mark-IsSettling a b'
          (record { versioned = i.versioned; named = i.named; covered = i.covered }),
      mark_compensation_pending-SameFrame a b',
    )

settle-Keeps :
    (t : BookingStatus) (s : Option CompensationStatus) (a : CompensationAction) (now : ℕ)
    → (b : Booking) → is_closing t ≡ true
    → IsSettling a b
    → Keeps (settle t s a (requirements_satisfied a b) now b)
unfolding settle
settle-Keeps t s a now b c i = ground (
  arith,
  covers-owes_nothing a b i.covered,
  complete_transition-Keeps t a now b c i,
  begin_compensation-Keeps t CompensationStatus.pending a b c i,
  begin_compensation-Keeps t CompensationStatus.failed a b c i,
)

-- What is still to be released was to be released before.
named_before :
    (r r' : ReservationEvidenceStatus)
    → reservation_evidence r r' ≡ true
    → release_required r' ≡ true
    → release_required r ≡ true
unfolding reservation_evidence release_required
named_before r r' h k = ground arith

-- Evidence leads from what was owed to what is owed now.
settled-IsSettling :
    (a : CompensationAction) (e : CompensationEvidence) (now : ℕ) (b : Booking)
    → IsSettling a b
    → (apply_compensation_evidence e now b).0 ≡ ok tt
    → let b' = (apply_compensation_evidence e now b).1 in IsSettling (settled_action a b') b'
settled-IsSettling a e now b i h =
    let b' = (apply_compensation_evidence e now b).1 in
    let f = apply_compensation_evidence-SameFrame e now b in
    let (ep, er) = evidence_of e now b h in
    record {
      versioned = rw (f.resource_version) i.versioned;
      named = λ k.
          rw (f.reservation_id)
            (i.named (named_before b.reservation_status b'.reservation_status er k));
      covered = covers-settled a b b' i.covered ep er;
    }

pub begin_or_complete-Keeps :
    (t : BookingStatus) (s : Option CompensationStatus) (e : CompensationEvidence) (now : ℕ)
    → (b : Booking) → is_closing t ≡ true
    → 1 ≤ b.resource_version
    → (release_required b.reservation_status ≡ true → is_some b.reservation_id ≡ true)
    → Keeps (begin_or_complete t s e now b)
unfolding begin_or_complete
begin_or_complete-Keeps t s e now b c v n =
    let b' = (apply_compensation_evidence e now b).1 in
    let a = settled_action (required_compensation_action b) b' in
    ground (
      arith,
      settled-IsSettling (required_compensation_action b) e now b (required-IsSettling b v n),
      settle-Keeps t s a now b' c,
    )

pub fail-Keeps :
    (c r : Text) (v now : ℕ) (s : Option CompensationStatus) (e : Option CompensationEvidence)
    → (b : Booking) → IsValid b
    → Keeps (fail c r v now s e b)
unfolding fail
fail-Keeps c r v now s e b i = elim (Result-cases (fail_checks c v b)) [
  | inl (code, hc) ↦ elim (Result-cases (validate_reason r "reason")) [
    | inl (text, ht) ↦ ground (
      arith,
      begin_or_complete-Keeps BookingStatus.failed s (value_or e no_evidence) now
          (record b { failure_code = some code; failure_reason = some text }) refl i.versioned
          i.named,
    )
    | inr (x, hx) ↦ ground arith
  ]
  | inr (x, hx) ↦ ground arith
]

-- What a cancellation may say of the payment leaves the rest alone.
cancel_payment_block-reservation :
    (p : Option PaymentStatus) (now : ℕ) (b : Booking)
    → (cancel_payment_block p now b).1.reservation_status ≡ b.reservation_status
unfolding cancel_payment_block
cancel_payment_block-reservation p now b = ground arith

pub cancel-Keeps :
    (r : Text) (v now : ℕ) (p : Option PaymentStatus) (s : Option CompensationStatus)
    → (e : Option CompensationEvidence) (b : Booking) → IsValid b
    → Keeps (cancel r v now p s e b)
unfolding cancel
cancel-Keeps r v now p s e b i = elim (Result-cases (cancel_checks r v b)) [
  | inl (text, ht) ↦
      let b' = record b { cancellation_reason = some text } in
      let c = (cancel_payment_block p now b').1 in
      let f = cancel_payment_block-SameFrame p now b' in
      ground (
        arith,
        begin_or_complete-Keeps BookingStatus.cancelled s (value_or e no_evidence) now c refl
            (rw (f.resource_version) i.versioned)
            (rw (f.reservation_id, cancel_payment_block-reservation p now b') i.named),
      )
  | inr (x, hx) ↦ ground arith
]

complete_compensation-Keeps :
    (a : CompensationAction) (now : ℕ) (b : Booking)
    → IsWaiting b
    → IsSettling a b
    → Keeps (complete_compensation a now b)
unfolding complete_compensation
complete_compensation-Keeps a now b w i = ground (arith, covers-owes_nothing a b i.covered)

close_compensation-Keeps :
    (s : CompensationStatus) (a : CompensationAction) (now : ℕ) (b : Booking)
    → s ≢ CompensationStatus.not_required
    → b.status ≡ BookingStatus.compensation_pending
    → b.compensation_action ≡ a
    → IsValid b
    → Keeps (close_compensation s a now b)
unfolding close_compensation
close_compensation-Keeps s a now b n h e i =
    let w = IsValid-IsWaiting b h i in
    let k : IsSettling a b = subst (λ x. IsSettling x b) e (IsValid-IsSettling b h i) in
    ground (arith, complete_compensation-Keeps a now b w k)

compensation_reason_block-IsValid :
    (r : Option Text) (b : Booking) → IsValid b → IsValid (compensation_reason_block r b).1
unfolding compensation_reason_block
compensation_reason_block-IsValid none b i = i
compensation_reason_block-IsValid (some r) b i = ground arith

-- From the evidence on.
close_after_evidence :
    (s : CompensationStatus) (a : CompensationAction) (now : ℕ) (b : Booking)
    → s ≢ CompensationStatus.not_required
    → IsWaiting b
    → IsSettling a b
    → Keeps ((note_action a now >> (close_compensation s a now >> touch now)) b)
unfolding touch
close_after_evidence s a now b n w k =
    let b' = (note_action a now b).1 in
    let (same, action) = note_action-fields a now b in
    ground (
      arith,
      note_action-Keeps a now b w k,
      close_compensation-Keeps s a now b' n (same ∙ w.waiting) action,
    )

pub record_compensation-Keeps :
    (v now : ℕ) (s : CompensationStatus) (e : CompensationEvidence) (r : Option Text) (b : Booking)
    → IsValid b
    → Keeps (record_compensation v now s e r b)
unfolding record_compensation
record_compensation-Keeps v now s e r b i = elim (Result-cases (record_compensation_checks v s b)) [
  | inl (t, h) ↦
      let (waits, n) = record_compensation_checks_accepts v s b h in
      let b₁ = (compensation_reason_block r b).1 in
      let f₁ = compensation_reason_block-SameFrame r b in
      let i₁ = compensation_reason_block-IsValid r b i in
      let w₁ = IsValid-IsWaiting b₁ (f₁.status ∙ waits) i₁ in
      let k₁ : IsSettling b.compensation_action b₁ =
        subst (λ x. IsSettling x b₁) f₁.compensation_action
          (IsValid-IsSettling b₁ (f₁.status ∙ waits) i₁) in
      let b₂ = (apply_compensation_evidence e now b₁).1 in
      let w₂ = SameFrame-IsWaiting b₁ b₂ (apply_compensation_evidence-SameFrame e now b₁) w₁ in
      let a = settled_action b.compensation_action b₂ in
      ground (
        arith,
        settled-IsSettling b.compensation_action e now b₁ k₁,
        close_after_evidence s a now b₂ n w₂,
      )
  | inr (x, h) ↦ ground arith
]
