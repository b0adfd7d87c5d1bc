-- ===== src/Inventory/Settling.antt =====
-- A hold that is confirmed in time, and one that is released.
pub mod Hold
use event_ticketing_soa.Common.{
  ℕ, ◌<◌, ◌≤◌, length, true, ◌≡◌, none, some, arith, ok, err, sym, ◌∙◌, ap, subst,
}
use event_ticketing_soa.Common.Rows.{In, In-first, first}
use event_ticketing_soa.Common.Text.{Text, codes}
use event_ticketing_soa.Inventory.Types.{Seat, SeatStatus, Reservation, ReservationStatus}
use event_ticketing_soa.Inventory.Errors.{SeatInventoryError}
use event_ticketing_soa.Inventory.Rules.{RequestContext, validated, validate_identifier}
use event_ticketing_soa.Inventory.Tables.{Database, Scope, has_id, is_reserved}
use event_ticketing_soa.Inventory.Payload.{Platform, RequestBody}
use event_ticketing_soa.Inventory.Replay.{Settings, new_call, is_record, committed}
use event_ticketing_soa.Inventory.Commands.{
  close, close_reservation, confirm_row, release_row, on_reservation, required_key, confirm_seats,
  release_seats,
}
use event_ticketing_soa.Inventory.Invariant.{IsValid}
use event_ticketing_soa.Inventory.Settling.Hold.{
  Settled, close_reservation-Settled, close_reservation_too_long, on_reservation-fresh,
  committed-Settled, confirm_row-active,
}

-- A hold that is confirmed in time: a valid request under a new key, with the version of an active
-- hold that has not expired and has a seat, returns the confirmed reservation, one version later,
-- and sells every seat of it.
pub confirm_seats-Settled :
    (p : Platform) (settings : Settings) (context : RequestContext) (key : Text) (now : ℕ)
    (id : Text) (db : Database) (q : Reservation) (z : Seat)
    → IsValid db
    → validated true context ≡ ok tt
    → context.idempotency_key ≡ some key
    → validate_identifier id "reservationId" ≡ ok q.reservation_id
    → first (is_record Scope.confirm_seats key) db.idempotency_records ≡ none
    → first (has_id q.reservation_id) db.reservations ≡ some q
    → q.status ≡ ReservationStatus.active
    → now < q.expires_at
    → In z db.seats
    → is_reserved db.reservation_items q.reservation_id z ≡ true
    → Settled ReservationStatus.confirmed SeatStatus.sold q
        (confirm_seats p settings context now id q.resource_version db)
unfolding confirm_seats confirm_row required_key
confirm_seats-Settled p settings context key now id db q z v c k i n r a l iz h =
    let n' = q.resource_version in
    let call =
      new_call p settings Scope.confirm_seats key (RequestBody.confirm q.reservation_id n') now in
    let close =
      close_reservation-Settled db v q (In-first (has_id q.reservation_id) db.reservations r).0 a z
        iz h call (codes "PAYMENT_CONFIRMED") (omega arith) ReservationStatus.confirmed
        SeatStatus.sold in
    let reached : confirm_seats p settings context now id n' db
        ≡ on_reservation call q.reservation_id (confirm_row call q.reservation_id n') db =
      rw (c, i, k) in
    let done : confirm_row call q.reservation_id n' q db
        ≡ close_reservation call q.reservation_id (codes "PAYMENT_CONFIRMED")
            ReservationStatus.confirmed SeatStatus.sold q db =
      confirm_row-active call q.reservation_id q db a l in
    subst (Settled ReservationStatus.confirmed SeatStatus.sold q)
      (sym (
        reached
        ∙ on_reservation-fresh call q.reservation_id (confirm_row call q.reservation_id n') db q n r
        ∙ ap (committed db) done))
      (committed-Settled ReservationStatus.confirmed SeatStatus.sold q db _ close)

-- A release that reaches the loop over the seats of the hold.
release_seats-reached :
    (p : Platform) (settings : Settings) (context : RequestContext) (key : Text) (now : ℕ)
    (id reason code : Text) (db : Database) (q : Reservation)
    → validated true context ≡ ok tt
    → context.idempotency_key ≡ some key
    → validate_identifier id "reservationId" ≡ ok q.reservation_id
    → validate_identifier reason "reasonCode" ≡ ok code
    → first (is_record Scope.release_seats key) db.idempotency_records ≡ none
    → first (has_id q.reservation_id) db.reservations ≡ some q
    → q.status ≡ ReservationStatus.active
    → let body = RequestBody.release q.reservation_id code in
      let call = new_call p settings Scope.release_seats key body now in
      release_seats p settings context now id reason db
      ≡ committed db (
          close_reservation call q.reservation_id code ReservationStatus.released
            SeatStatus.available q db)
unfolding release_seats release_row required_key
release_seats-reached p settings context key now id reason code db q c k i j n r a =
    let call =
      new_call p settings Scope.release_seats key (RequestBody.release q.reservation_id code) now in
    let reached : release_seats p settings context now id reason db
        ≡ on_reservation call q.reservation_id (release_row call q.reservation_id code) db =
      rw (c, i, j, k) in
    let done : release_row call q.reservation_id code q db
        ≡ close_reservation call q.reservation_id code ReservationStatus.released
            SeatStatus.available q db =
      rw a in
    reached
    ∙ on_reservation-fresh call q.reservation_id (release_row call q.reservation_id code) db q n r
    ∙ ap (committed db) done

-- A hold that is released: a valid request under a new key, with a reason of at most 80 characters,
-- for an active hold that has a seat returns the released reservation, one version later, and frees
-- every seat of it.
pub release_seats-Settled :
    (p : Platform) (settings : Settings) (context : RequestContext) (key : Text) (now : ℕ)
    (id reason code : Text) (db : Database) (q : Reservation) (z : Seat)
    → IsValid db
    → validated true context ≡ ok tt
    → context.idempotency_key ≡ some key
    → validate_identifier id "reservationId" ≡ ok q.reservation_id
    → validate_identifier reason "reasonCode" ≡ ok code
    → length code ≤ 80
    → first (is_record Scope.release_seats key) db.idempotency_records ≡ none
    → first (has_id q.reservation_id) db.reservations ≡ some q
    → q.status ≡ ReservationStatus.active
    → In z db.seats
    → is_reserved db.reservation_items q.reservation_id z ≡ true
    → Settled ReservationStatus.released SeatStatus.available q
        (release_seats p settings context now id reason db)
release_seats-Settled p settings context key now id reason code db q z v c k i j audited n r a iz
      h =
    let call =
      new_call p settings Scope.release_seats key (RequestBody.release q.reservation_id code) now in
    let stored = (In-first (has_id q.reservation_id) db.reservations r).0 in
    subst (Settled ReservationStatus.released SeatStatus.available q)
      (sym (release_seats-reached p settings context key now id reason code db q c k i j n r a))
      (committed-Settled ReservationStatus.released SeatStatus.available q db _ (
        close_reservation-Settled db v q stored a z iz h call code audited
          ReservationStatus.released SeatStatus.available))

-- A reason of more than 80 characters, which is valid up to 128: a request for an active hold that
-- has a seat, valid and under a new key, is refused by the audit table, and the hold stands as it was.
pub release_seats_too_long :
    (p : Platform) (settings : Settings) (context : RequestContext) (key : Text) (now : ℕ)
    (id reason code : Text) (db : Database) (q : Reservation) (z : Seat)
    → IsValid db
    → validated true context ≡ ok tt
    → context.idempotency_key ≡ some key
    → validate_identifier id "reservationId" ≡ ok q.reservation_id
    → validate_identifier reason "reasonCode" ≡ ok code
    → 80 < length code
    → first (is_record Scope.release_seats key) db.idempotency_records ≡ none
    → first (has_id q.reservation_id) db.reservations ≡ some q
    → q.status ≡ ReservationStatus.active
    → In z db.seats
    → is_reserved db.reservation_items q.reservation_id z ≡ true
    → release_seats p settings context now id reason db ≡ (err SeatInventoryError.data_error, db)
release_seats_too_long p settings context key now id reason code db q z v c k i j long n r a iz h =
    let call =
      new_call p settings Scope.release_seats key (RequestBody.release q.reservation_id code) now in
    let stored = (In-first (has_id q.reservation_id) db.reservations r).0 in
    let (after, refused) =
      close_reservation_too_long db v q stored a z iz h call code ReservationStatus.released
        SeatStatus.available long in
    release_seats-reached p settings context key now id reason code db q c k i j n r a
    ∙ ap (committed db) refused
