-- ===== src/Inventory/Commands/Reserve.antt =====
-- reserve_seats.py
use event_ticketing_soa.Common.{
  ℕ, ◌+◌, Bool, true, false, ◌||◌, ◌&&◌, not, Option, none, some, List, [], ◌∷◌, ◌++◌, map, Result,
  ok, err, ⊤, lift, self, pure, modify, raise_if, ◌>>=◌, ◌>>◌, if◌then◌else◌, leb, is_some,
}
use event_ticketing_soa.Common.Rows.{update, select, any}
use event_ticketing_soa.Common.Text.{Text, text_eq}
use event_ticketing_soa.Inventory.Types.{
  Seat, SeatStatus, Reservation, ReservationStatus, ReservationItem, ReservationView,
  reservation_status_eq, seat_status_eq, status_value,
}
use event_ticketing_soa.Inventory.Errors.{SeatInventoryError}
use event_ticketing_soa.Inventory.Rules.{
  RequestContext, validated, validate_identifier, normalize_seat_ids, validate_hold_seconds,
  sort_unique,
}
use event_ticketing_soa.Inventory.Tables.{
  Database, Command, Scope, is_chosen, get_reservation, get_reservation_by_booking, lock_seats,
  ReservationPayload, reservation_to_view,
}
use event_ticketing_soa.Inventory.Payload.{Platform, RequestBody, reservation_from_payload}
use event_ticketing_soa.Inventory.Replay.{
  Call, Settings, new_call, replay_or_lock, save_replay, atomically,
}
use event_ticketing_soa.Inventory.Commands.Close.{required_key}

-- `_require_active_hold`
unfoldable pub require_active_hold : ℕ → Text → Reservation → Result SeatInventoryError ⊤
require_active_hold now reservation_id r =
    if not (reservation_status_eq r.status ReservationStatus.active)
    then err (SeatInventoryError.invalid_reservation_state reservation_id (status_value r.status))
    else if leb r.expires_at now
    then err (SeatInventoryError.reservation_expired reservation_id)
    else ok tt

-- The live row of a replayed response, or `ReservationNotFound`.
unfoldable pub require_live : ℕ → Text → Option Reservation → Result SeatInventoryError ⊤
require_live now reservation_id none = err (SeatInventoryError.reservation_not_found reservation_id)
require_live now reservation_id (some r) = require_active_hold now reservation_id r

unfoldable pub replay_reservation : Call → ReservationPayload → Command ReservationView
unfolding require_live
replay_reservation c payload = do
  replayed ← lift (reservation_from_payload c.platform payload)
  live ← get_reservation replayed.reservation_id
  lift (require_live c.now replayed.reservation_id live)
  pure replayed

-- `==` on tuples of texts.
unfoldable pub same_texts : List Text → List Text → Bool
same_texts [] [] = true
same_texts (s ∷ ss) (t ∷ ts) = text_eq s t && same_texts ss ts
same_texts _ _ = false

-- The reservation that the booking has already.
unfoldable pub reserve_again :
    Call → Text → Text → List Text → Reservation → Command ReservationView
unfolding same_texts
reserve_again c booking_id event_id seat_ids existing = do
  db ← self
  let view = reservation_to_view c.platform.order_by_seat_id db.reservation_items existing
  raise_if (not (text_eq view.event_id event_id) || not (same_texts view.seat_ids seat_ids))
      (SeatInventoryError.inventory_conflict booking_id)
  lift (require_active_hold c.now existing.reservation_id existing)
  save_replay c view

abbrev pub has_seat_id : Text → Seat → Bool
has_seat_id seat_id s = text_eq s.seat_id seat_id

-- `sorted(set(normalized_seats) - found)`, of a sorted list.
unfoldable pub missing_seats : List Text → List Seat → List Text
missing_seats seat_ids seats = select (λ seat_id. not (any (has_seat_id seat_id) seats)) seat_ids

abbrev pub is_taken : Seat → Bool
is_taken s = not (seat_status_eq s.status SeatStatus.available)

unfoldable pub unavailable_seats : List Seat → List Seat
unavailable_seats seats = select is_taken seats

unfoldable pub check_missing : List Text → Result SeatInventoryError ⊤
check_missing [] = ok tt
check_missing missing = err (SeatInventoryError.seat_not_found missing)

unfoldable pub check_unavailable : List Seat → Result SeatInventoryError ⊤
check_unavailable [] = ok tt
check_unavailable taken =
    err (SeatInventoryError.seat_unavailable (sort_unique (map (λ s. s.seat_id) taken)))

abbrev pub new_reservation : Text → Text → Text → ℕ → ℕ → Reservation
new_reservation reservation_id booking_id event_id hold_seconds now = record {
  reservation_id = reservation_id;
  booking_id = booking_id;
  event_id = event_id;
  status = ReservationStatus.active;
  expires_at = now + hold_seconds;
  extend_count = 0;
  resource_version = 1;
  created_at = now;
  updated_at = now;
}

-- The view that the command returns, before the rows are read again.
abbrev pub new_view : Text → Text → Text → List Text → ℕ → ℕ → ReservationView
new_view reservation_id booking_id event_id seat_ids hold_seconds now = record {
  reservation_id = reservation_id;
  booking_id = booking_id;
  event_id = event_id;
  seat_ids = seat_ids;
  status = ReservationStatus.active;
  expires_at = now + hold_seconds;
  extend_count = 0;
  resource_version = 1;
  created_at = now;
  updated_at = now;
}

abbrev pub new_item : Text → Text → ℕ → Seat → ReservationItem
new_item reservation_id event_id now s = record {
  reservation_id = reservation_id;
  event_id = event_id;
  seat_id = s.seat_id;
  created_at = now;
}

abbrev pub hold : Text → ℕ → Seat → Seat
hold reservation_id now s = record s {
  status = SeatStatus.held;
  current_reservation_id = some reservation_id;
  resource_version = s.resource_version + 1;
  updated_at = now;
}

-- The inserts, and the loop over the seats.
unfoldable pub allocate :
    (reservation_id booking_id event_id : Text)
    → List Text
    → (hold_seconds now : ℕ) → Database
    → Database
allocate reservation_id booking_id event_id seat_ids hold_seconds now db = record db {
  seats = update (is_chosen event_id seat_ids) (hold reservation_id now) db.seats;
  reservations =
      new_reservation reservation_id booking_id event_id hold_seconds now ∷ db.reservations;
  reservation_items =
      map (new_item reservation_id event_id now) (select (is_chosen event_id seat_ids) db.seats)
      ++ db.reservation_items;
}

-- A new reservation. The primary key refuses an identifier that is in use.
unfoldable pub reserve_new :
    Call → (reservation_id booking_id event_id : Text) → List Text → ℕ → Command ReservationView
unfolding check_missing check_unavailable missing_seats unavailable_seats
reserve_new c reservation_id booking_id event_id seat_ids hold_seconds = do
  seats ← lock_seats event_id seat_ids
  lift (check_missing (missing_seats seat_ids seats))
  lift (check_unavailable (unavailable_seats seats))
  clash ← get_reservation reservation_id
  raise_if (is_some clash) SeatInventoryError.integrity_error
  modify (allocate reservation_id booking_id event_id seat_ids hold_seconds c.now)
  save_replay c (new_view reservation_id booking_id event_id seat_ids hold_seconds c.now)

unfoldable pub reserve_or_again :
    Call
    → (reservation_id booking_id event_id : Text) → List Text
    → ℕ
    → Option Reservation
    → Command ReservationView
reserve_or_again c reservation_id booking_id event_id seat_ids hold_seconds none =
    reserve_new c reservation_id booking_id event_id seat_ids hold_seconds
reserve_or_again c reservation_id booking_id event_id seat_ids hold_seconds (some existing) =
    reserve_again c booking_id event_id seat_ids existing

unfoldable pub reserve_or_replay :
    Call
    → (reservation_id booking_id event_id : Text) → List Text
    → ℕ
    → Option ReservationPayload
    → Command ReservationView
unfolding reserve_or_again
reserve_or_replay c reservation_id booking_id event_id seat_ids hold_seconds (some payload) =
    replay_reservation c payload
reserve_or_replay c reservation_id booking_id event_id seat_ids hold_seconds none = do
  existing ← get_reservation_by_booking booking_id
  reserve_or_again c reservation_id booking_id event_id seat_ids hold_seconds existing

-- `fresh_id` is the `uuid4` of the call.
unfoldable pub reserve_seats :
    Platform
    → Settings
    → RequestContext
    → (fresh_id : Text) → ℕ
    → (booking_id event_id : Text) → List Text
    → (hold_seconds : ℕ) → Command ReservationView
unfolding reserve_or_replay required_key
reserve_seats p settings context fresh_id now booking_id event_id seat_ids hold_seconds = do
  lift (validated true context)
  booking ← lift (validate_identifier booking_id "bookingId")
  event ← lift (validate_identifier event_id "eventId")
  ids ← lift (normalize_seat_ids seat_ids)
  hold ←
      lift (validate_hold_seconds hold_seconds settings.min_hold_seconds settings.max_hold_seconds)
  key ← lift (required_key context.idempotency_key)
  let c =
      new_call p settings Scope.reserve_seats key (RequestBody.reserve booking event ids hold) now
  atomically
      do replay ← replay_or_lock c; reserve_or_replay c fresh_id booking event ids hold replay
