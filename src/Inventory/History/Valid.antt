-- ===== src/Inventory/History/Valid.antt =====
-- The invariant along a sequence of requests, and what it says of the seats.
use event_ticketing_soa.Common.{ℕ, true, ◌≡◌, none, some, List, [], ◌∷◌, subst, ◌||◌}
use event_ticketing_soa.Common.Rows.{In}
use event_ticketing_soa.Inventory.Types.{
  Seat, SeatStatus, Reservation, ReservationStatus, ReservationItem, seat_status_eq,
}
use event_ticketing_soa.Inventory.Rules.{RequestContext}
use event_ticketing_soa.Inventory.Tables.{Database}
use event_ticketing_soa.Inventory.Payload.{Platform}
use event_ticketing_soa.Inventory.Replay.{Settings}
use event_ticketing_soa.Inventory.Invariant.{
  IsValid, Backed, Holds, Joins, is_live, reserve_seats-IsValid, confirm_seats-IsValid,
  release_seats-IsValid, extend_reservation-IsValid, expire_reservations-IsValid,
}
use event_ticketing_soa.Inventory.History.Requests.{Request, Arrival, perform, serve, IsFresh}

-- A seat that is for sale or blocked, in nobody's name.
unheld-Backed :
    (db : Database) (s : Seat) (w : SeatStatus)
    → (seat_status_eq w SeatStatus.available || seat_status_eq w SeatStatus.blocked) ≡ true
    → s.current_reservation_id ≡ none
    → Backed db.reservations db.reservation_items s w
unheld-Backed db s SeatStatus.available h e = e
unheld-Backed db s SeatStatus.held h e = absurd (cc)
unheld-Backed db s SeatStatus.sold h e = absurd (cc)
unheld-Backed db s SeatStatus.blocked h e = e

pub fresh-IsValid : (db : Database) → IsFresh db → IsValid db
fresh-IsValid db f = record {
  holds = λ i r s ii. absurd (let k = subst (In i) f.no_items ii in cc);
  disjoint = λ i j r q ii. absurd (let k = subst (In i) f.no_items ii in cc);
  backed = λ s is. let (a, b) = f.unheld s is in unheld-Backed db s s.status a b;
  known = λ i ii. absurd (let k = subst (In i) f.no_items ii in cc);
}

perform-IsValid :
    (p : Platform) (settings : Settings) (context : RequestContext) (now : ℕ) (r : Request)
    (db : Database)
    → IsValid db
    → IsValid (perform p settings context now r db)
unfolding perform
perform-IsValid p settings context now (Request.reserve id booking event seats seconds) db v =
    reserve_seats-IsValid p settings context id now booking event seats seconds db v
perform-IsValid p settings context now (Request.confirm id version) db v =
    confirm_seats-IsValid p settings context now id db v version
perform-IsValid p settings context now (Request.release id reason) db v =
    release_seats-IsValid p settings context now id db v reason
perform-IsValid p settings context now (Request.extend id version seconds) db v =
    extend_reservation-IsValid p settings context now id db v version seconds
perform-IsValid p settings context now (Request.expire locked size) db v =
    expire_reservations-IsValid settings context locked now size db v

-- Every sequence of requests keeps the tables consistent: an item of an active reservation stands
-- for a seat that is held in its name, one of a confirmed reservation for a sold seat, a held or
-- sold seat has such a reservation behind it, no two live reservations share a seat, and every item
-- has its reservation.
pub serve-IsValid :
    (p : Platform) (settings : Settings) (calls : List Arrival) (db : Database)
    → IsValid db
    → IsValid (serve p settings calls db)
unfolding serve
serve-IsValid p settings [] db v = v
serve-IsValid p settings (a ∷ calls) db v =
    serve-IsValid p settings calls (perform p settings a.context a.now a.request db)
      (perform-IsValid p settings a.context a.now a.request db v)

-- No double booking: after any sequence of requests to a fresh inventory, two reservations that are
-- active or confirmed and have an item for the same seat are one reservation.
pub serve-no_double_booking :
    (p : Platform) (settings : Settings) (calls : List Arrival) (db after : Database)
    → IsFresh db
    → serve p settings calls db ≡ after
    → (i j : ReservationItem) (r q : Reservation) → In i after.reservation_items
    → In j after.reservation_items
    → In r after.reservations
    → In q after.reservations
    → i.reservation_id ≡ r.reservation_id
    → j.reservation_id ≡ q.reservation_id
    → i.event_id ≡ j.event_id
    → i.seat_id ≡ j.seat_id
    → is_live r ≡ true
    → is_live q ≡ true
    → r.reservation_id ≡ q.reservation_id
serve-no_double_booking p settings calls db after f e =
    (subst IsValid e (serve-IsValid p settings calls db (fresh-IsValid db f))).disjoint

-- After any sequence of requests to a fresh inventory, the seat of an item whose reservation is
-- active is held in the name of that reservation.
pub serve-held :
    (p : Platform) (settings : Settings) (calls : List Arrival) (db after : Database)
    → IsFresh db
    → serve p settings calls db ≡ after
    → (i : ReservationItem) (r : Reservation) (s : Seat) → In i after.reservation_items
    → In r after.reservations
    → In s after.seats
    → Joins i r s
    → r.status ≡ ReservationStatus.active
    → (s.status ≡ SeatStatus.held) × (s.current_reservation_id ≡ some r.reservation_id)
serve-held p settings calls db after f e i r s ii ir is j h =
    let v = subst IsValid e (serve-IsValid p settings calls db (fresh-IsValid db f)) in
    subst (λ w. Holds w r.reservation_id s.status s.current_reservation_id) h
      (v.holds i r s ii ir is j)
