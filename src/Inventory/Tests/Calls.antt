-- ===== src/Inventory/Tests/Calls.antt =====
-- Commands on the held seats, and the tables that they leave.
use event_ticketing_soa.Common.{◌≡◌, refl, [], ◌∷◌, ok}
use event_ticketing_soa.Common.Rows.{first, select, any, update}
use event_ticketing_soa.Common.Text.{
  Text, codes, matches_identifier, strip, lstrip, text_eq, text_le,
}
use event_ticketing_soa.Inventory.Types.{Seat, SeatStatus, ReservationStatus, ReservationView}
use event_ticketing_soa.Inventory.Rules.{
  validated, validate_identifier, validate_given, validate_extension_seconds, sort_unique,
  insert_text,
}
use event_ticketing_soa.Inventory.Tables.{
  Database, Scope, is_reserved, get_reservation, lock_reservation_seats, reservation_to_view,
  get_reservation_seat_ids,
}
use event_ticketing_soa.Inventory.Payload.{RequestBody, reservation_to_payload}
use event_ticketing_soa.Inventory.Replay.{
  Call, new_call, store_record, replay_or_lock, check_record, save_replay,
}
use event_ticketing_soa.Inventory.Commands.{
  closed, extended, required_key, is_inconsistent, on_reservation, replay_or, found, append_audit,
  close_reservation, reply_with_row, close, confirm_seats, confirm_row, release_seats, release_row,
  extend_reservation, extend_row,
}
use event_ticketing_soa.Inventory.Tests.Hall.{platform, settings, keyed, seat, r1, reply, held_hall}

-- The hold is confirmed, under a key of its own.
abbrev pub sold_seat : Text → Seat
sold_seat id = record (seat id SeatStatus.sold) { resource_version = 3; updated_at = 20 }

abbrev pub sold_reply : ReservationView
sold_reply = record reply {
  status = ReservationStatus.confirmed;
  resource_version = 2;
  updated_at = 20;
}

abbrev pub confirm_call : Call
confirm_call =
    new_call platform settings Scope.confirm_seats (codes "k3") (RequestBody.confirm (codes "r1") 1)
      20

abbrev pub sold_hall : Database
sold_hall = store_record confirm_call sold_reply (record held_hall {
  seats =
      sold_seat (codes "A1") ∷ sold_seat (codes "A2") ∷ seat (codes "B1") SeatStatus.blocked ∷ [];
  reservations = closed ReservationStatus.confirmed 20 r1 ∷ [];
})

pub confirm-sold_hall :
    confirm_seats platform settings (keyed (codes "k3")) 20 (codes "r1") 1 held_hall
    ≡ (ok sold_reply, sold_hall)
unfolding confirm_seats confirm_row on_reservation replay_or found append_audit close_reservation
    reply_with_row close validated validate_identifier matches_identifier strip lstrip text_eq
    validate_given required_key first select any update is_reserved get_reservation
    lock_reservation_seats is_inconsistent replay_or_lock check_record save_replay
    reservation_to_view get_reservation_seat_ids sort_unique insert_text text_le
    reservation_to_payload
confirm-sold_hall = refl

pub r1-identifier : validate_identifier (codes "r1") "reservationId" ≡ ok (codes "r1")
unfolding validate_identifier matches_identifier strip lstrip
r1-identifier = refl

-- The hold is released, or extended.
abbrev pub free_seat : Text → Seat
free_seat id = record (seat id SeatStatus.available) { resource_version = 3; updated_at = 20 }

abbrev pub free_reply : ReservationView
free_reply = record reply {
  status = ReservationStatus.released;
  resource_version = 2;
  updated_at = 20;
}

abbrev pub free_hall : Database
free_hall =
    store_record
      (new_call platform settings Scope.release_seats (codes "k3")
        (RequestBody.release (codes "r1") (codes "CANCELLED")) 20)
      free_reply
      (record held_hall {
        seats =
            free_seat (codes "A1")
            ∷ free_seat (codes "A2")
            ∷ seat (codes "B1") SeatStatus.blocked
            ∷ [];
        reservations = closed ReservationStatus.released 20 r1 ∷ [];
      })

pub release-free_hall :
    release_seats platform settings
      (keyed (codes "k3"))
      20
      (codes "r1")
      (codes "CANCELLED")
      held_hall
    ≡ (ok free_reply, free_hall)
unfolding release_seats release_row on_reservation replay_or found append_audit close_reservation
    reply_with_row close validated validate_identifier matches_identifier strip lstrip text_eq
    validate_given required_key first select any update is_reserved get_reservation
    lock_reservation_seats is_inconsistent replay_or_lock check_record save_replay
    reservation_to_view get_reservation_seat_ids sort_unique insert_text text_le
    reservation_to_payload
release-free_hall = refl

abbrev pub longer_reply : ReservationView
longer_reply = record reply {
  expires_at = 430;
  extend_count = 1;
  resource_version = 2;
  updated_at = 20;
}

abbrev pub longer_hall : Database
longer_hall =
    store_record
      (new_call platform settings Scope.extend_reservation (codes "k3")
        (RequestBody.extend (codes "r1") 1 120) 20)
      longer_reply (record held_hall { reservations = extended 120 20 r1 ∷ [] })

pub extend-longer_hall :
    extend_reservation platform settings (keyed (codes "k3")) 20 (codes "r1") 1 120 held_hall
    ≡ (ok longer_reply, longer_hall)
unfolding extend_reservation extend_row validate_extension_seconds on_reservation replay_or found
    close_reservation reply_with_row close validated validate_identifier matches_identifier strip
    lstrip text_eq validate_given required_key first select any update is_reserved get_reservation
    lock_reservation_seats is_inconsistent replay_or_lock check_record save_replay
    reservation_to_view get_reservation_seat_ids sort_unique insert_text text_le
    reservation_to_payload
extend-longer_hall = refl
