-- ===== src/Inventory/History/Requests.antt =====
-- The commands of services/seat-inventory-service/app/application as requests, and their effect on
-- the tables, whether they return or raise.
use event_ticketing_soa.Common.{ℕ, Bool, true, ◌||◌, ◌≡◌, Option, none, List, [], ◌∷◌}
use event_ticketing_soa.Common.Rows.{In}
use event_ticketing_soa.Common.Text.{Text}
use event_ticketing_soa.Inventory.Types.{Seat, SeatStatus, seat_status_eq}
use event_ticketing_soa.Inventory.Rules.{RequestContext}
use event_ticketing_soa.Inventory.Tables.{Database}
use event_ticketing_soa.Inventory.Payload.{Platform}
use event_ticketing_soa.Inventory.Replay.{Settings}
use event_ticketing_soa.Inventory.Commands.{
  reserve_seats, confirm_seats, release_seats, extend_reservation, expire_reservations,
}

pub data Request : Type 0 where
  -- the call's uuid4; bookingId, eventId, seatIds, holdSeconds
  reserve : Text → Text → Text → List Text → ℕ → Request
  -- reservationId, expectedVersion
  confirm : Text → ℕ → Request
  -- reservationId, reasonCode
  release : Text → Text → Request
  -- reservationId, expectedVersion, extensionSeconds
  extend : Text → ℕ → ℕ → Request
  -- the rows that other transactions have locked; batchSize
  expire : (Text → Bool) → Option ℕ → Request

pub record Arrival : Type 0 where
  pub context : RequestContext
  -- `database_now` of its transaction
  pub now : ℕ
  pub request : Request

unfoldable pub perform : Platform → Settings → RequestContext → ℕ → Request → Database → Database
perform p settings context now (Request.reserve id booking event seats seconds) db =
    (reserve_seats p settings context id now booking event seats seconds db).1
perform p settings context now (Request.confirm id version) db =
    (confirm_seats p settings context now id version db).1
perform p settings context now (Request.release id reason) db =
    (release_seats p settings context now id reason db).1
perform p settings context now (Request.extend id version seconds) db =
    (extend_reservation p settings context now id version seconds db).1
perform p settings context now (Request.expire locked size) db =
    (expire_reservations settings context locked now size db).1

unfoldable pub serve : Platform → Settings → List Arrival → Database → Database
unfolding perform
serve p settings [] db = db
serve p settings (a ∷ calls) db =
    serve p settings calls (perform p settings a.context a.now a.request db)

-- An inventory as it is set up: its seats are for sale or blocked, and nothing is reserved.
pub record IsFresh (db : Database) : Type 0 where
  pub no_reservations : db.reservations ≡ []
  pub no_items : db.reservation_items ≡ []
  pub unheld :
      (s : Seat)
      → In s db.seats
      → ((seat_status_eq s.status SeatStatus.available
            || seat_status_eq s.status SeatStatus.blocked)
          ≡ true)
        × (s.current_reservation_id ≡ none)
