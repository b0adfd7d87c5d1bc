-- ===== src/Booking/Invariant/Settling.antt =====
-- A booking on the way to its end, with the action that covers what it owes.
use event_ticketing_soa.Common.{ℕ, ◌≤◌, ◌≡◌, true, arith, is_some, Result, Ensures, ⊤}
use event_ticketing_soa.Booking.Enums.{BookingStatus, CompensationAction, compensation_status}
use event_ticketing_soa.Booking.Errors.{BookingError}
use event_ticketing_soa.Booking.Frame.{SameFrame, mark_compensation_pending-SameFrame}
use event_ticketing_soa.Booking.Entity.{
  Booking, release_required, mark_compensation_pending, note_action, required_compensation_action,
}
use event_ticketing_soa.Booking.Invariant.Defs.{IsValid, covers, is_target, is_open}
use event_ticketing_soa.Booking.Invariant.Obligations.{covers-required}

-- The invariant holds after a call that returns.
abbrev pub Keeps : Result BookingError ⊤ × Booking → Type 0
Keeps = Ensures (λ _ b'. IsValid b')

-- What the end of a booking starts from.
pub record IsSettling (a : CompensationAction) (b : Booking) : Type 0 where
  pub versioned : 1 ≤ b.resource_version
  pub named : release_required b.reservation_status ≡ true → is_some b.reservation_id ≡ true
  pub covered : covers a b.payment_status b.reservation_status ≡ true

-- Marking what is pending keeps the start.
pub mark-IsSettling :
    (a : CompensationAction) (b : Booking)
    → IsSettling a b
    → IsSettling a (mark_compensation_pending a b).1
unfolding mark_compensation_pending covers release_required
mark-IsSettling a b i = ground arith

pub required-IsSettling :
    (b : Booking)
    → 1 ≤ b.resource_version
    → (release_required b.reservation_status ≡ true → is_some b.reservation_id ≡ true)
    → IsSettling (required_compensation_action b) b
unfolding required_compensation_action
required-IsSettling b v n = record {
  versioned = v;
  named = n;
  covered = covers-required b.payment_status b.reservation_status;
}

-- A booking that waits for compensation.
pub record IsWaiting (b : Booking) : Type 0 where
  pub waiting : b.status ≡ BookingStatus.compensation_pending
  pub target : is_target b.intended_terminal_status ≡ true
  pub outcome : is_open b.compensation_status ≡ true

pub IsValid-IsWaiting :
    (b : Booking) → b.status ≡ BookingStatus.compensation_pending → IsValid b → IsWaiting b
IsValid-IsWaiting b h i = ground arith

pub IsValid-IsSettling :
    (b : Booking)
    → b.status ≡ BookingStatus.compensation_pending
    → IsValid b
    → IsSettling b.compensation_action b
IsValid-IsSettling b h i = ground arith

pub note_action-Keeps :
    (a : CompensationAction) (now : ℕ) (b : Booking)
    → IsWaiting b
    → IsSettling a b
    → Keeps (note_action a now b)
unfolding note_action
note_action-Keeps a now b w i =
    let b' = record b { compensation_action = a } in
    ground (
      arith,
      mark-IsSettling a b'
          (record { versioned = i.versioned; named = i.named; covered = i.covered }),
      mark_compensation_pending-SameFrame a b',
    )

pub note_action-fields :
    (a : CompensationAction) (now : ℕ) (b : Booking)
    → ((note_action a now b).1.status ≡ b.status)
      × ((note_action a now b).1.compensation_action ≡ a)
unfolding note_action mark_compensation_pending
note_action-fields a now b = ground arith

pub SameFrame-IsWaiting : (b b' : Booking) → SameFrame b b' → IsWaiting b → IsWaiting b'
SameFrame-IsWaiting b b' f w = ground arith
