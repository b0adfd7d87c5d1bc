-- ===== src/Inventory/Tests/Ends.antt =====
-- The ends of a hold on the small hall.
use event_ticketing_soa.Common.{true, false, ◌≡◌, refl, none, some, ok, err, arith, inl, subst}
use event_ticketing_soa.Common.Rows.{first, any}
use event_ticketing_soa.Common.Text.{Text, codes, matches_identifier, strip, lstrip, text_eq}
use event_ticketing_soa.Inventory.Types.{SeatStatus, ReservationStatus}
use event_ticketing_soa.Inventory.Rules.{validated, validate_identifier, validate_given}
use event_ticketing_soa.Inventory.Tables.{Scope, scope_eq, has_id, is_reserved}
use event_ticketing_soa.Inventory.Replay.{is_record}
use event_ticketing_soa.Inventory.Commands.{confirm_seats, release_seats}
use event_ticketing_soa.Inventory.Invariant.{IsValid}
use event_ticketing_soa.Inventory.History.{fresh-IsValid, serve-IsValid}
use event_ticketing_soa.Inventory.Settling.Hold.{Settled}
use event_ticketing_soa.Inventory.Settling.{
  confirm_seats-Settled, release_seats-Settled, release_seats_too_long,
}
use event_ticketing_soa.Inventory.Errors.{SeatInventoryError}
use event_ticketing_soa.Inventory.Tests.Hall.{
  platform, settings, keyed, hall, hall-IsFresh, rush, held_seat, r1, held_hall, rush-held_hall,
}
use event_ticketing_soa.Inventory.Tests.Calls.{r1-identifier}

held_hall-IsValid : IsValid held_hall
held_hall-IsValid =
    subst IsValid rush-held_hall
      (serve-IsValid platform settings rush hall (fresh-IsValid hall hall-IsFresh))

keyed-validated : (o : Text) → o ≡ codes "k3" → validated true (keyed o) ≡ ok tt
unfolding validated validate_identifier matches_identifier strip lstrip text_eq validate_given
keyed-validated o e = rw e

no_record :
    (scope : Scope)
    → scope_eq Scope.reserve_seats scope ≡ false
    → first (is_record scope (codes "k3")) held_hall.idempotency_records ≡ none
unfolding first
no_record scope h = rw h

r1-stored : first (has_id (codes "r1")) held_hall.reservations ≡ some r1
unfolding first text_eq
r1-stored = refl

A1-reserved : is_reserved held_hall.reservation_items (codes "r1") (held_seat (codes "A1")) ≡ true
unfolding is_reserved any text_eq
A1-reserved = refl

confirm_seats-Settled_example :
    Settled ReservationStatus.confirmed SeatStatus.sold r1
      (confirm_seats platform settings (keyed (codes "k3")) 20 (codes "r1") 1 held_hall)
confirm_seats-Settled_example =
    confirm_seats-Settled platform settings (keyed (codes "k3")) (codes "k3") 20 (codes "r1")
      held_hall r1 (held_seat (codes "A1")) held_hall-IsValid (keyed-validated (codes "k3") refl)
      refl r1-identifier (no_record Scope.confirm_seats refl) r1-stored refl (omega arith)
      (inl refl) A1-reserved

reason-identifier : validate_identifier (codes "CANCELLED") "reasonCode" ≡ ok (codes "CANCELLED")
unfolding validate_identifier matches_identifier strip lstrip
reason-identifier = refl

release_seats-Settled_example : Settled ReservationStatus.released SeatStatus.available r1 (
    release_seats platform settings
      (keyed (codes "k3"))
      20
      (codes "r1")
      (codes "CANCELLED")
      held_hall)
release_seats-Settled_example =
    release_seats-Settled platform settings (keyed (codes "k3")) (codes "k3") 20 (codes "r1")
      (codes "CANCELLED") (codes "CANCELLED") held_hall r1 (held_seat (codes "A1"))
      held_hall-IsValid (keyed-validated (codes "k3") refl) refl r1-identifier reason-identifier
      (omega arith) (no_record Scope.release_seats refl) r1-stored refl (inl refl) A1-reserved

-- 81 letters.
abbrev long_reason : Text
long_reason =
    codes "AAAAAAAAAAAAAAAAAAAAAAAAAAAAAAAAAAAAAAAAAAAAAAAAAAAAAAAAAAAAAAAAAAAAAAAAAAAAAAAAA"

long_reason-identifier : validate_identifier long_reason "reasonCode" ≡ ok long_reason
unfolding validate_identifier matches_identifier strip lstrip
long_reason-identifier = refl

release_seats_too_long_example :
    release_seats platform settings (keyed (codes "k3")) 20 (codes "r1") long_reason held_hall
    ≡ (err SeatInventoryError.data_error, held_hall)
release_seats_too_long_example =
    release_seats_too_long platform settings (keyed (codes "k3")) (codes "k3") 20 (codes "r1")
      long_reason long_reason held_hall r1 (held_seat (codes "A1")) held_hall-IsValid
      (keyed-validated (codes "k3") refl) refl r1-identifier long_reason-identifier (omega arith)
      (no_record Scope.release_seats refl) r1-stored refl (inl refl) A1-reserved
