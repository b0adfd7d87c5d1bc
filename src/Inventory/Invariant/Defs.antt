-- ===== src/Inventory/Invariant/Defs.antt =====
-- What ties the seats, the reservations and the items together.
use event_ticketing_soa.Common.{Bool, true, ◌||◌, ◌≡◌, Option, none, some, List, arith, sym, ◌∙◌}
use event_ticketing_soa.Common.Rows.{In, any-In, In-any}
use event_ticketing_soa.Common.Text.{Text, text_eq_iff}
use event_ticketing_soa.Inventory.Types.{
  Seat, SeatStatus, Reservation, ReservationStatus, ReservationItem, reservation_status_eq,
}
use event_ticketing_soa.Inventory.Tables.{Database, is_item, is_reserved}

-- A hold, or a sale.
abbrev pub is_live : Reservation → Bool
is_live r =
    reservation_status_eq r.status ReservationStatus.active
    || reservation_status_eq r.status ReservationStatus.confirmed

-- The reservation that the item is of, and the seat that it stands for.
pub record Joins (i : ReservationItem) (r : Reservation) (s : Seat) : Type 0 where
  pub of_reservation : i.reservation_id ≡ r.reservation_id
  pub of_event : i.event_id ≡ s.event_id
  pub of_seat : i.seat_id ≡ s.seat_id

-- An active reservation holds the seat in its own name; a confirmed one has it sold.
abbrev pub Holds : ReservationStatus → Text → SeatStatus → Option Text → Type 0
Holds ReservationStatus.active id seat owner = (seat ≡ SeatStatus.held) × (owner ≡ some id)
Holds ReservationStatus.confirmed id seat owner = (seat ≡ SeatStatus.sold) × (owner ≡ none)
Holds ReservationStatus.released id seat owner = Unit
Holds ReservationStatus.expired id seat owner = Unit

-- A reservation with this status that has an item for the seat.
pub record BackedBy (reservations : List Reservation) (items : List ReservationItem) (s : Seat)
    (status : ReservationStatus) : Type 0 where
  pub row : Reservation
  pub stored : In row reservations
  pub in_status : row.status ≡ status
  pub reserves : is_reserved items row.reservation_id s ≡ true

abbrev pub Backer : Database → Seat → ReservationStatus → Type 0
Backer db s status = BackedBy db.reservations db.reservation_items s status

-- A held seat names an active reservation for it, and only such a seat names any; behind a sold
-- seat stands a confirmed reservation.
abbrev pub Backed : List Reservation → List ReservationItem → Seat → SeatStatus → Type 0
Backed rs is s SeatStatus.held =
    (b : BackedBy rs is s ReservationStatus.active) × (s.current_reservation_id
      ≡ some b.row.reservation_id)
Backed rs is s SeatStatus.sold =
    BackedBy rs is s ReservationStatus.confirmed × (s.current_reservation_id ≡ none)
Backed rs is s SeatStatus.available = s.current_reservation_id ≡ none
Backed rs is s SeatStatus.blocked = s.current_reservation_id ≡ none

pub record Valid (seats : List Seat) (reservations : List Reservation)
    (items : List ReservationItem) : Type 0 where
  pub holds :
      (i : ReservationItem) (r : Reservation) (s : Seat)
      → In i items
      → In r reservations
      → In s seats
      → Joins i r s
      → Holds r.status r.reservation_id s.status s.current_reservation_id
  pub disjoint :
      (i j : ReservationItem) (r q : Reservation)
      → In i items
      → In j items
      → In r reservations
      → In q reservations
      → i.reservation_id ≡ r.reservation_id
      → j.reservation_id ≡ q.reservation_id
      → i.event_id ≡ j.event_id
      → i.seat_id ≡ j.seat_id
      → is_live r ≡ true
      → is_live q ≡ true
      → r.reservation_id ≡ q.reservation_id
  pub backed : (s : Seat) → In s seats → Backed reservations items s s.status
  pub known :
      (i : ReservationItem)
      → In i items
      → (r : Reservation) × In r reservations × (i.reservation_id ≡ r.reservation_id)

abbrev pub IsValid : Database → Type 0
IsValid db = Valid db.seats db.reservations db.reservation_items

-- An item for the seat, from the join's answer.
pub is_reserved-In :
    (items : List ReservationItem) (id : Text) (s : Seat)
    → is_reserved items id s ≡ true
    → (i : ReservationItem) × In i items
      × (i.reservation_id ≡ id)
      × (i.event_id ≡ s.event_id)
      × (i.seat_id ≡ s.seat_id)
unfolding is_reserved
is_reserved-In items id s h =
    let (i, k, e) = In-any (is_item id s) items h in
    (
      i,
      k,
      ground (arith, text_eq_iff i.reservation_id id),
      ground (arith, text_eq_iff i.event_id s.event_id),
      ground (arith, text_eq_iff i.seat_id s.seat_id),
    )

pub In-is_reserved :
    (items : List ReservationItem) (id : Text) (s : Seat) (i : ReservationItem)
    → In i items
    → i.reservation_id ≡ id
    → i.event_id ≡ s.event_id
    → i.seat_id ≡ s.seat_id
    → is_reserved items id s ≡ true
unfolding is_reserved
In-is_reserved items id s i k a b c = any-In (is_item id s) items i k (
    ground (
      arith,
      text_eq_iff i.reservation_id id,
      text_eq_iff i.event_id s.event_id,
      text_eq_iff i.seat_id s.seat_id,
    ))

-- The join reads the seat's key alone.
pub is_reserved_same :
    (items : List ReservationItem) (id : Text) (s s' : Seat)
    → s'.event_id ≡ s.event_id
    → s'.seat_id ≡ s.seat_id
    → is_reserved items id s ≡ true
    → is_reserved items id s' ≡ true
is_reserved_same items id s s' e f h =
    let (i, k, a, b, c) = is_reserved-In items id s h in
    In-is_reserved items id s' i k a (b ∙ sym e) (c ∙ sym f)
