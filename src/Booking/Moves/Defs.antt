-- ===== src/Booking/Moves/Defs.antt =====
-- The statement: one step of the version and of the transition table, or nothing.
use event_ticketing_soa.Common.{◌+◌, ◌≡◌, Bool, true, Result, ok, err, ⊤, one_of, ◌||◌, arith}
use event_ticketing_soa.Booking.Enums.{BookingStatus, booking_status, booking_status_eq}
use event_ticketing_soa.Booking.Errors.{BookingError}
use event_ticketing_soa.Booking.Rules.{allowed_transitions}
use event_ticketing_soa.Booking.Entity.{Booking}

-- The target is the current status, or the transition table allows it next.
unfoldable pub follows : BookingStatus → BookingStatus → Bool
follows current target =
    booking_status_eq target current || one_of target (allowed_transitions current)

pub follows_refl : (s : BookingStatus) → follows s s ≡ true
unfolding follows
follows_refl s = ground arith

-- A call that began at `b`. If it returns, the version has gone up by one, and the status follows
-- the one before. If it raises, version and status are as before.
abbrev pub Moves : Booking → Result BookingError ⊤ × Booking → Type 0
Moves b (ok _, b') =
    (b'.resource_version ≡ b.resource_version + 1) × (follows b.status b'.status ≡ true)
Moves b (err _, b') = (b'.resource_version ≡ b.resource_version) × (b'.status ≡ b.status)

-- The same without the new version: a part of a command.
abbrev pub Advances : Booking → Result BookingError ⊤ × Booking → Type 0
Advances b (ok _, b') =
    (b'.resource_version ≡ b.resource_version) × (follows b.status b'.status ≡ true)
Advances b (err _, b') = (b'.resource_version ≡ b.resource_version) × (b'.status ≡ b.status)
