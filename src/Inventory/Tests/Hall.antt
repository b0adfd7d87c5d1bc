-- ===== src/Inventory/Tests/Hall.antt =====
-- A small hall, and two requests that want the same seat.
use event_ticketing_soa.Common.{
  ℕ, true, ◌≡◌, refl, Option, none, some, List, [], ◌∷◌, ◌++◌, inl, inr, ◌||◌,
}
use event_ticketing_soa.Common.Rows.{In, first, select, any, update}
use event_ticketing_soa.Common.Text.{
  Text, codes, matches_identifier, strip, lstrip, text_eq, text_le, mem_text,
}
use event_ticketing_soa.Inventory.Types.{
  Seat, SeatStatus, Reservation, ReservationStatus, ReservationItem, ReservationView,
  seat_status_eq,
}
use event_ticketing_soa.Inventory.Rules.{
  RequestContext, validated, validate_identifier, validate_given, normalize_seat_ids, validate_each,
  validate_hold_seconds, sort_unique, insert_text,
}
use event_ticketing_soa.Inventory.Tables.{
  Database, Scope, is_reserved, get_reservation, get_reservation_by_booking, lock_reservation_seats,
  lock_seats, reservation_to_view, get_reservation_seat_ids,
}
use event_ticketing_soa.Inventory.Payload.{Platform, RequestBody, reservation_to_payload}
use event_ticketing_soa.Inventory.Replay.{
  Settings, Call, new_call, store_record, replay_or_lock, check_record, save_replay,
}
use event_ticketing_soa.Inventory.Commands.{
  new_view, required_key, is_inconsistent, reserve_seats, reserve_or_replay, reserve_or_again,
  reserve_new, allocate, missing_seats, unavailable_seats, check_missing, check_unavailable,
}
use event_ticketing_soa.Inventory.History.{Request, Arrival, serve, perform, IsFresh}

-- A digest that keeps the body, and times as one code.
abbrev pub digest : RequestBody → Text
digest (RequestBody.reserve booking event seats n) = n ∷ booking ++ event
digest (RequestBody.confirm id n) = n ∷ id
digest (RequestBody.release id reason) = id ++ reason
digest (RequestBody.extend id n seconds) = n ∷ seconds ∷ id

abbrev pub read_time : Text → Option ℕ
read_time [] = none
read_time (t ∷ _) = some t

abbrev pub platform : Platform
platform = record {
  canonical_request_hash = digest;
  isoformat = λ t. t ∷ [];
  fromisoformat = read_time;
  order_by_seat_id = sort_unique;
}

pub reads : (t : ℕ) → platform.fromisoformat (platform.isoformat t) ≡ some t
reads t = refl

abbrev pub settings : Settings
settings = record {
  min_hold_seconds = 60;
  max_hold_seconds = 900;
  max_extension_seconds = 300;
  max_extend_count = 2;
  expiry_batch_size = 100;
  idempotency_ttl_seconds = 86400;
}

abbrev pub keyed : Text → RequestContext
keyed key = record {
  correlation_id = codes "c1";
  caller_service = codes "gateway";
  idempotency_key = some key;
  actor_id = none;
  schema_version = codes "1";
}

abbrev pub seat : Text → SeatStatus → Seat
seat id status = record {
  event_id = codes "e1";
  seat_id = id;
  section = codes "stalls";
  row_label = codes "A";
  seat_number = codes "1";
  ticket_type = codes "standard";
  status = status;
  current_reservation_id = none;
  resource_version = 1;
  created_at = 0;
  updated_at = 0;
}

abbrev pub hall : Database
hall = record {
  seats =
      seat (codes "A1") SeatStatus.available
      ∷ seat (codes "A2") SeatStatus.available
      ∷ seat (codes "B1") SeatStatus.blocked
      ∷ [];
  reservations = [];
  reservation_items = [];
  idempotency_records = [];
}

pub unheld :
    (s : Seat)
    → In s hall.seats
    → ((seat_status_eq s.status SeatStatus.available || seat_status_eq s.status SeatStatus.blocked)
        ≡ true)
      × (s.current_reservation_id ≡ none)
unheld s (inl e) = rw e (refl, refl)
unheld s (inr (inl e)) = rw e (refl, refl)
unheld s (inr (inr (inl e))) = rw e (refl, refl)
unheld s (inr (inr (inr e))) = absurd (cc)

pub hall-IsFresh : IsFresh hall
hall-IsFresh = record { no_reservations = refl; no_items = refl; unheld = unheld }

abbrev pub arrival : Text → ℕ → Request → Arrival
arrival key now request = record { context = keyed key; now = now; request = request }

abbrev pub both : List Text
both = codes "A2" ∷ codes " A1" ∷ []

-- One hold of both seats, and another that comes too late.
abbrev pub rush : List Arrival
rush =
    arrival (codes "k1") 10 (Request.reserve (codes "r1") (codes "b1") (codes "e1") both 300)
    ∷ arrival (codes "k2") 11
        (Request.reserve (codes "r2") (codes "b2") (codes "e1") (codes "A1" ∷ []) 300)
    ∷ []

abbrev pub held_seat : Text → Seat
held_seat id = record (seat id SeatStatus.held) {
  current_reservation_id = some (codes "r1");
  resource_version = 2;
  updated_at = 10;
}

abbrev pub r1 : Reservation
r1 = record {
  reservation_id = codes "r1";
  booking_id = codes "b1";
  event_id = codes "e1";
  status = ReservationStatus.active;
  expires_at = 310;
  extend_count = 0;
  resource_version = 1;
  created_at = 10;
  updated_at = 10;
}

abbrev pub item : Text → ReservationItem
item id = record {
  reservation_id = codes "r1";
  event_id = codes "e1";
  seat_id = id;
  created_at = 10;
}

abbrev pub reply : ReservationView
reply = new_view (codes "r1") (codes "b1") (codes "e1") (codes "A1" ∷ codes "A2" ∷ []) 300 10

abbrev pub reserve_call : Call
reserve_call =
    new_call platform settings Scope.reserve_seats (codes "k1")
      (RequestBody.reserve (codes "b1") (codes "e1") (codes "A1" ∷ codes "A2" ∷ []) 300) 10

abbrev pub held_hall : Database
held_hall = store_record reserve_call reply (record {
  seats =
      held_seat (codes "A1") ∷ held_seat (codes "A2") ∷ seat (codes "B1") SeatStatus.blocked ∷ [];
  reservations = r1 ∷ [];
  reservation_items = item (codes "A1") ∷ item (codes "A2") ∷ [];
  idempotency_records = [];
})

pub rush-held_hall : serve platform settings rush hall ≡ held_hall
unfolding serve perform reserve_seats reserve_or_replay reserve_or_again reserve_new allocate
    normalize_seat_ids validate_each validate_hold_seconds lock_seats get_reservation_by_booking
    missing_seats unavailable_seats check_missing check_unavailable mem_text validated
    validate_identifier matches_identifier strip lstrip text_eq validate_given required_key first
    select any update is_reserved get_reservation lock_reservation_seats is_inconsistent
    replay_or_lock check_record save_replay reservation_to_view get_reservation_seat_ids sort_unique
    insert_text text_le reservation_to_payload
rush-held_hall = refl
