-- ===== src/Inventory/Commands/Settle.antt =====
-- confirm_seats.py, release_seats.py and extend_reservation.py.
use event_ticketing_soa.Common.{
  ℕ, ◌+◌, true, ◌||◌, Option, none, some, lift, raise, modify, raise_if, raise_unless, ◌>>=◌, ◌>>◌,
  if◌then◌else◌, leb, ◌==◌,
}
use event_ticketing_soa.Common.Rows.{update}
use event_ticketing_soa.Common.Text.{Text, codes}
use event_ticketing_soa.Inventory.Types.{
  SeatStatus, Reservation, ReservationStatus, ReservationView, reservation_status_eq, status_value,
}
use event_ticketing_soa.Inventory.Errors.{SeatInventoryError}
use event_ticketing_soa.Inventory.Rules.{
  RequestContext, validated, validate_identifier, validate_extension_seconds,
}
use event_ticketing_soa.Inventory.Tables.{
  Database, Command, Scope, has_id, get_reservation, ReservationPayload,
}
use event_ticketing_soa.Inventory.Payload.{Platform, RequestBody, reservation_from_payload}
use event_ticketing_soa.Inventory.Replay.{Call, Settings, new_call, replay_or_lock, atomically}
use event_ticketing_soa.Inventory.Commands.Close.{close_reservation, reply_with_row, required_key}

-- The locked row, or `ReservationNotFound`.
unfoldable pub found :
    Text → (Reservation → Command ReservationView) → Option Reservation → Command ReservationView
found reservation_id k none = raise (SeatInventoryError.reservation_not_found reservation_id)
found reservation_id k (some r) = k r

-- The stored response, or the command on the row.
unfoldable pub replay_or :
    Call
    → Text
    → (Reservation → Command ReservationView)
    → Option ReservationPayload
    → Command ReservationView
unfolding found
replay_or c reservation_id k (some payload) = lift (reservation_from_payload c.platform payload)
replay_or c reservation_id k none = do
  row ← get_reservation reservation_id
  found reservation_id k row

-- The transaction of a command on one reservation.
unfoldable pub on_reservation :
    Call → Text → (Reservation → Command ReservationView) → Command ReservationView
unfolding replay_or
on_reservation c reservation_id k =
    atomically do replay ← replay_or_lock c; replay_or c reservation_id k replay

unfoldable pub confirm_row : Call → Text → ℕ → Reservation → Command ReservationView
confirm_row c reservation_id expected_version r =
    if reservation_status_eq r.status ReservationStatus.confirmed then reply_with_row c r else (do
      raise_unless (reservation_status_eq r.status ReservationStatus.active)
          (SeatInventoryError.invalid_reservation_state reservation_id (status_value r.status))
      raise_if (leb r.expires_at c.now) (SeatInventoryError.reservation_expired reservation_id)
      raise_unless (r.resource_version == expected_version)
          (SeatInventoryError.version_conflict expected_version r.resource_version)
      close_reservation c reservation_id (codes "PAYMENT_CONFIRMED") ReservationStatus.confirmed
          SeatStatus.sold r)

unfoldable pub confirm_seats :
    Platform → Settings → RequestContext → ℕ → (reservation_id : Text) → ℕ → Command ReservationView
unfolding on_reservation confirm_row required_key
confirm_seats p settings context now reservation_id expected_version = do
  lift (validated true context)
  id ← lift (validate_identifier reservation_id "reservationId")
  key ← lift (required_key context.idempotency_key)
  let c = new_call p settings Scope.confirm_seats key (RequestBody.confirm id expected_version) now
  on_reservation c id (confirm_row c id expected_version)

unfoldable pub release_row :
    Call → (reservation_id reason_code : Text) → Reservation → Command ReservationView
release_row c reservation_id reason_code r =
    if reservation_status_eq r.status ReservationStatus.released
      || reservation_status_eq r.status ReservationStatus.expired
    then reply_with_row c r
    else (do
      raise_unless (reservation_status_eq r.status ReservationStatus.active)
          (SeatInventoryError.invalid_reservation_state reservation_id (status_value r.status))
      close_reservation c reservation_id reason_code ReservationStatus.released SeatStatus.available
          r)

unfoldable pub release_seats :
    Platform
    → Settings
    → RequestContext
    → ℕ
    → (reservation_id reason_code : Text) → Command ReservationView
unfolding on_reservation release_row required_key
release_seats p settings context now reservation_id reason_code = do
  lift (validated true context)
  id ← lift (validate_identifier reservation_id "reservationId")
  reason ← lift (validate_identifier reason_code "reasonCode")
  key ← lift (required_key context.idempotency_key)
  let c = new_call p settings Scope.release_seats key (RequestBody.release id reason) now
  on_reservation c id (release_row c id reason)

-- The writes of `extend_reservation`.
abbrev pub extended : ℕ → ℕ → Reservation → Reservation
extended seconds now r = record r {
  expires_at = r.expires_at + seconds;
  extend_count = r.extend_count + 1;
  resource_version = r.resource_version + 1;
  updated_at = now;
}

abbrev pub extend : Text → ℕ → ℕ → Database → Database
extend reservation_id seconds now db = record db {
  reservations = update (has_id reservation_id) (extended seconds now) db.reservations;
}

unfoldable pub extend_row : Call → Text → ℕ → ℕ → Reservation → Command ReservationView
extend_row c reservation_id expected_version seconds r = do
  raise_unless (reservation_status_eq r.status ReservationStatus.active)
      (SeatInventoryError.invalid_reservation_state reservation_id (status_value r.status))
  raise_if (leb r.expires_at c.now) (SeatInventoryError.reservation_expired reservation_id)
  raise_unless (r.resource_version == expected_version)
      (SeatInventoryError.version_conflict expected_version r.resource_version)
  raise_if (leb c.settings.max_extend_count r.extend_count)
      (SeatInventoryError.invalid_reservation_state reservation_id "MAX_EXTENSION_REACHED")
  modify (extend reservation_id seconds c.now)
  reply_with_row c (extended seconds c.now r)

unfoldable pub extend_reservation :
    Platform
    → Settings
    → RequestContext
    → ℕ
    → (reservation_id : Text) → (expected_version extension_seconds : ℕ) → Command ReservationView
unfolding on_reservation extend_row required_key
extend_reservation p settings context now reservation_id expected_version extension_seconds = do
  lift (validated true context)
  id ← lift (validate_identifier reservation_id "reservationId")
  seconds ← lift (validate_extension_seconds extension_seconds settings.max_extension_seconds)
  key ← lift (required_key context.idempotency_key)
  let c =
      new_call p settings Scope.extend_reservation key
        (RequestBody.extend id expected_version seconds) now
  on_reservation c id (extend_row c id expected_version seconds)
