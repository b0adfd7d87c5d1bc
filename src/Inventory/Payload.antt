-- ===== src/Inventory/Payload.antt =====
-- services/seat-inventory-service/app/application/common.py: the JSON body of a reservation, and
-- domain/rules.py: the digest of a request. `json.dumps` with SHA-256, `isoformat`,
-- `fromisoformat` and the order of texts in the database are the platform's.
use event_ticketing_soa.Common.{
  ℕ, Option, none, some, List, Result, ok, err, if◌then◌else◌, ◌≡◌, refl,
}
use event_ticketing_soa.Common.Pure.{◌>>=◌}
use event_ticketing_soa.Common.Text.{Text, text_eq, codes}
use event_ticketing_soa.Inventory.Types.{ReservationStatus, ReservationView, status_value}
use event_ticketing_soa.Inventory.Errors.{SeatInventoryError}
use event_ticketing_soa.Inventory.Tables.{ReservationPayload}

-- The bodies that the commands hash.
pub data RequestBody : Type 0 where
  -- bookingId, eventId, seatIds, holdSeconds
  reserve : Text → Text → List Text → ℕ → RequestBody
  -- reservationId, expectedVersion
  confirm : Text → ℕ → RequestBody
  -- reservationId, reasonCode
  release : Text → Text → RequestBody
  -- reservationId, expectedVersion, extensionSeconds
  extend : Text → ℕ → ℕ → RequestBody

pub record Platform : Type 0 where
  pub canonical_request_hash : RequestBody → Text
  pub isoformat : ℕ → Text
  -- `none` is a `ValueError`.
  pub fromisoformat : Text → Option ℕ
  -- `ORDER BY seat_id`, by the collation of the database.
  pub order_by_seat_id : List Text → List Text

unfoldable pub reservation_to_payload : Platform → ReservationView → ReservationPayload
reservation_to_payload p view = record {
  reservation_id = view.reservation_id;
  booking_id = view.booking_id;
  event_id = view.event_id;
  seat_ids = view.seat_ids;
  status = codes (status_value view.status);
  expires_at = p.isoformat view.expires_at;
  extend_count = view.extend_count;
  resource_version = view.resource_version;
  created_at = p.isoformat view.created_at;
  updated_at = p.isoformat view.updated_at;
}

-- `ReservationStatus(value)`
unfoldable pub parse_status : Text → Result SeatInventoryError ReservationStatus
parse_status t =
    if text_eq t (codes "ACTIVE")
    then ok ReservationStatus.active
    else if text_eq t (codes "CONFIRMED")
    then ok ReservationStatus.confirmed
    else if text_eq t (codes "RELEASED")
    then ok ReservationStatus.released
    else if text_eq t (codes "EXPIRED")
    then ok ReservationStatus.expired
    else err SeatInventoryError.value_error

abbrev pub or_value_error : Option ℕ → Result SeatInventoryError ℕ
or_value_error none = err SeatInventoryError.value_error
or_value_error (some t) = ok t

unfoldable pub reservation_from_payload :
    Platform → ReservationPayload → Result SeatInventoryError ReservationView
unfolding parse_status
reservation_from_payload p payload = do
  status ← parse_status payload.status
  expires_at ← or_value_error (p.fromisoformat payload.expires_at)
  created_at ← or_value_error (p.fromisoformat payload.created_at)
  updated_at ← or_value_error (p.fromisoformat payload.updated_at)
  ok (record {
    reservation_id = payload.reservation_id;
    booking_id = payload.booking_id;
    event_id = payload.event_id;
    seat_ids = payload.seat_ids;
    status = status;
    expires_at = expires_at;
    extend_count = payload.extend_count;
    resource_version = payload.resource_version;
    created_at = created_at;
    updated_at = updated_at;
  })

parse_status-status_value : (s : ReservationStatus) → parse_status (codes (status_value s)) ≡ ok s
unfolding parse_status text_eq
parse_status-status_value ReservationStatus.active = refl
parse_status-status_value ReservationStatus.confirmed = refl
parse_status-status_value ReservationStatus.released = refl
parse_status-status_value ReservationStatus.expired = refl

-- A stored reservation is read back as it was, if a time that is written in ISO format is read
-- back as that time.
pub reservation_from_payload-reservation_to_payload :
    (p : Platform)
    → ((t : ℕ) → p.fromisoformat (p.isoformat t) ≡ some t)
    → (view : ReservationView)
    → reservation_from_payload p (reservation_to_payload p view) ≡ ok view
unfolding reservation_from_payload reservation_to_payload
reservation_from_payload-reservation_to_payload p h view =
    rw (
      parse_status-status_value view.status,
      h view.expires_at,
      h view.created_at,
      h view.updated_at,
    )
