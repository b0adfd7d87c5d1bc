-- ===== src/Inventory/Tables.antt =====
-- services/seat-inventory-service/app/infrastructure/database/repositories.py: the tables, and the
-- queries of the commands. A row that is locked is read in the same way.
use event_ticketing_soa.Common.{ℕ, Bool, true, false, ◌&&◌, Option, List, map, Action, gets}
use event_ticketing_soa.Common.Rows.{select, any, first}
use event_ticketing_soa.Common.Text.{Text, text_eq, mem_text}
use event_ticketing_soa.Inventory.Types.{Seat, Reservation, ReservationItem, ReservationView}
use event_ticketing_soa.Inventory.Errors.{SeatInventoryError}

-- The body of a stored response: `reservation_to_payload`, a JSON object whose times are texts.
pub record ReservationPayload : Type 0 where
  pub reservation_id : Text
  pub booking_id : Text
  pub event_id : Text
  pub seat_ids : List Text
  pub status : Text
  pub expires_at : Text
  pub extend_count : ℕ
  pub resource_version : ℕ
  pub created_at : Text
  pub updated_at : Text

-- The `SCOPE` of each command.
pub data Scope : Type 0 where
  reserve_seats confirm_seats release_seats extend_reservation : Scope

abbrev pub scope_eq : Scope → Scope → Bool
scope_eq Scope.reserve_seats Scope.reserve_seats = true
scope_eq Scope.confirm_seats Scope.confirm_seats = true
scope_eq Scope.release_seats Scope.release_seats = true
scope_eq Scope.extend_reservation Scope.extend_reservation = true
scope_eq _ _ = false

-- IdempotencyRecordModel; the status is the constant `COMPLETED`.
pub record IdempotencyRecord : Type 0 where
  pub scope : Scope
  pub idempotency_key : Text
  pub request_hash : Text
  pub response_body : ReservationPayload
  pub resource_id : Text
  pub created_at : ℕ
  pub expires_at : ℕ

pub record Database : Type 0 where
  pub seats : List Seat
  pub reservations : List Reservation
  pub reservation_items : List ReservationItem
  pub idempotency_records : List IdempotencyRecord

abbrev pub Command : Type 0 → Type 0
Command A = Action SeatInventoryError Database A

abbrev pub has_id : Text → Reservation → Bool
has_id reservation_id r = text_eq r.reservation_id reservation_id

abbrev pub has_booking : Text → Reservation → Bool
has_booking booking_id r = text_eq r.booking_id booking_id

unfoldable pub get_reservation : Text → Command (Option Reservation)
get_reservation reservation_id = gets (λ db. first (has_id reservation_id) db.reservations)

unfoldable pub get_reservation_by_booking : Text → Command (Option Reservation)
get_reservation_by_booking booking_id = gets (λ db. first (has_booking booking_id) db.reservations)

abbrev pub is_chosen : Text → List Text → Seat → Bool
is_chosen event_id seat_ids s = text_eq s.event_id event_id && mem_text s.seat_id seat_ids

unfoldable pub lock_seats : Text → List Text → Command (List Seat)
lock_seats event_id seat_ids = gets (λ db. select (is_chosen event_id seat_ids) db.seats)

-- The condition of the join in `lock_reservation_seats`.
abbrev pub is_at : Seat → ReservationItem → Bool
is_at s i = text_eq i.event_id s.event_id && text_eq i.seat_id s.seat_id

abbrev pub is_item : Text → Seat → ReservationItem → Bool
is_item reservation_id s i = text_eq i.reservation_id reservation_id && is_at s i

unfoldable pub is_reserved : List ReservationItem → Text → Seat → Bool
is_reserved items reservation_id s = any (is_item reservation_id s) items

unfoldable pub lock_reservation_seats : Text → Command (List Seat)
unfolding is_reserved
lock_reservation_seats reservation_id =
    gets (λ db. select (is_reserved db.reservation_items reservation_id) db.seats)

-- `ORDER BY seat_id` is by the collation of the database, which is the caller's.
unfoldable pub get_reservation_seat_ids :
    (List Text → List Text) → List ReservationItem → Text → List Text
get_reservation_seat_ids order_by_seat_id items reservation_id =
    order_by_seat_id
      (map (λ i. i.seat_id) (select (λ i. text_eq i.reservation_id reservation_id) items))

unfoldable pub reservation_to_view :
    (List Text → List Text) → List ReservationItem → Reservation → ReservationView
unfolding get_reservation_seat_ids
reservation_to_view order_by_seat_id items r = record {
  reservation_id = r.reservation_id;
  booking_id = r.booking_id;
  event_id = r.event_id;
  seat_ids = get_reservation_seat_ids order_by_seat_id items r.reservation_id;
  status = r.status;
  expires_at = r.expires_at;
  extend_count = r.extend_count;
  resource_version = r.resource_version;
  created_at = r.created_at;
  updated_at = r.updated_at;
}
