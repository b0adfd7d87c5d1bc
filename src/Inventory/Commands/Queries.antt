-- ===== src/Inventory/Commands/Queries.antt =====
-- get_reservation.py and check_availability.py
use event_ticketing_soa.Common.{ℕ, Bool, false, not, List, map, lift, self, pure, ◌>>=◌, ◌>>◌}
use event_ticketing_soa.Common.Rows.{select}
use event_ticketing_soa.Common.Text.{Text, mem_text}
use event_ticketing_soa.Inventory.Types.{Seat, SeatStatus, ReservationView, seat_status_eq}
use event_ticketing_soa.Inventory.Rules.{
  RequestContext, validated, validate_identifier, normalize_seat_ids, sort_unique,
}
use event_ticketing_soa.Inventory.Tables.{Command, get_reservation, lock_seats, reservation_to_view}
use event_ticketing_soa.Inventory.Payload.{Platform}
use event_ticketing_soa.Inventory.Commands.Close.{is_nil}
use event_ticketing_soa.Inventory.Commands.Reserve.{missing_seats, check_missing}
use event_ticketing_soa.Inventory.Commands.Settle.{found}

unfoldable pub get_reservation_view : Platform → RequestContext → Text → Command ReservationView
unfolding found
get_reservation_view p context reservation_id = do
  lift (validated false context)
  id ← lift (validate_identifier reservation_id "reservationId")
  row ← get_reservation id
  db ← self
  found id (λ r. pure (reservation_to_view p.order_by_seat_id db.reservation_items r)) row

pub record AvailabilityResult : Type 0 where
  pub event_id : Text
  pub available : Bool
  pub available_seat_ids : List Text
  pub unavailable_seat_ids : List Text
  pub checked_at : ℕ

abbrev pub is_available : Seat → Bool
is_available s = seat_status_eq s.status SeatStatus.available

-- The answer for the seats that were read.
unfoldable pub availability : Text → List Text → ℕ → List Seat → AvailabilityResult
availability event_id seat_ids now seats =
    let free = sort_unique (map (λ s. s.seat_id) (select is_available seats)) in
    let taken = select (λ id. not (mem_text id free)) seat_ids in
    record {
      event_id = event_id;
      available = is_nil taken;
      available_seat_ids = free;
      unavailable_seat_ids = taken;
      checked_at = now;
    }

unfoldable pub check_availability :
    RequestContext → ℕ → (event_id : Text) → List Text → Command AvailabilityResult
unfolding availability check_missing missing_seats
check_availability context now event_id seat_ids = do
  lift (validated false context)
  event ← lift (validate_identifier event_id "eventId")
  ids ← lift (normalize_seat_ids seat_ids)
  seats ← lock_seats event ids
  lift (check_missing (missing_seats ids seats))
  pure (availability event ids now seats)
