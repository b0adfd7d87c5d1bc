-- ===== src/Inventory/Invariant/Reserve.antt =====
-- `reserve_seats` keeps the invariant.
use event_ticketing_soa.Common.{
  ℕ, Bool, true, false, ◌≡◌, Option, none, some, List, [], arith, inl, inr, ok, Result-cases,
  Leaves, ◌>>=◌, Option-cases, ⊤,
}
use event_ticketing_soa.Common.Rows.{In, first, first-none, select, select-none, In-select}
use event_ticketing_soa.Common.Text.{Text}
use event_ticketing_soa.Inventory.Types.{Seat, SeatStatus, Reservation, ReservationView}
use event_ticketing_soa.Inventory.Rules.{
  RequestContext, validated, validate_identifier, normalize_seat_ids, validate_hold_seconds,
}
use event_ticketing_soa.Inventory.Tables.{
  Database, Scope, has_id, has_booking, is_chosen, lock_seats, get_reservation,
  get_reservation_by_booking, reservation_to_view, ReservationPayload,
}
use event_ticketing_soa.Inventory.Payload.{Platform, RequestBody, reservation_from_payload}
use event_ticketing_soa.Inventory.Replay.{
  Settings, Call, new_call, save_replay, replay_or_lock, committed, store_record,
}
use event_ticketing_soa.Inventory.Commands.{
  missing_seats, unavailable_seats, check_missing, check_unavailable, is_taken, new_view, allocate,
  reserve_new, reserve_again, reserve_or_again, reserve_or_replay, replay_reservation, require_live,
  require_active_hold, reserve_seats, required_key,
}
use event_ticketing_soa.Inventory.Invariant.Defs.{IsValid}
use event_ticketing_soa.Inventory.Invariant.Allocate.{allocate-IsValid}
use event_ticketing_soa.Inventory.Invariant.Keeps.{Keeps, committed-Leaves, replay_or_lock-Leaves}

-- When the test of the locked seats passes, each of them is available.
check_unavailable-free :
    (p : Seat → Bool) (seats : List Seat) (o : ⊤)
    → check_unavailable (unavailable_seats (select p seats)) ≡ ok o
    → (s : Seat) → In s seats
    → p s ≡ true
    → s.status ≡ SeatStatus.available
unfolding check_unavailable unavailable_seats
check_unavailable-free p seats o h s is c =
    let e : select is_taken (select p seats) ≡ [] = ground arith in
    let k = select-none is_taken (select p seats) s e (In-select p seats s is c) in ground arith

-- The control flow of a reservation, for any property of the tables: what it writes is a stored
-- response, after a new reservation of seats that are available or alone.
module _ (P : Database → Type 0) (c : Call) (id booking event : Text) (ids : List Text)
    (seconds : ℕ) (db : Database) (before : P db) where
  reserve_new-Leaves :
      ((fresh : (r : Reservation) → In r db.reservations → has_id id r ≡ false)
          (free : (s : Seat)
            → In s db.seats
            → is_chosen event ids s ≡ true
            → s.status ≡ SeatStatus.available)
          (view : ReservationView)
        → P (store_record c view (allocate id booking event ids seconds c.now db)))
      → Leaves P (reserve_new c id booking event ids seconds db)
  unfolding reserve_new lock_seats get_reservation save_replay
  reserve_new-Leaves done =
      let seats = select (is_chosen event ids) db.seats in
      elim (Result-cases (check_missing (missing_seats ids seats))) [
        | inr (e, h) ↦ rw h before
        | inl (o, h) ↦ elim (Result-cases (check_unavailable (unavailable_seats seats))) [
          | inr (e, k) ↦ rw (h, k) before
          | inl (o', k) ↦ elim (Option-cases (first (has_id id) db.reservations)) [
            | inr (r, l) ↦ rw (h, k, l) before
            | inl l ↦
                rw (h, k, l)
                  (done (λ r ir. first-none (has_id id) db.reservations r l ir)
                    (check_unavailable-free (is_chosen event ids) db.seats o' k)
                    (new_view id booking event ids seconds c.now))
          ]
        ]
      ]

  module _ (saved : (view : ReservationView) → P (store_record c view db)) where
    reserve_again-Leaves : (r : Reservation) → Leaves P (reserve_again c booking event ids r db)
    unfolding reserve_again save_replay require_active_hold
    reserve_again-Leaves r = ground (
      arith,
      before,
      saved (reservation_to_view c.platform.order_by_seat_id db.reservation_items r),
    )

    replay_reservation-Leaves :
        (payload : ReservationPayload) → Leaves P (replay_reservation c payload db)
    unfolding replay_reservation get_reservation require_live require_active_hold
    replay_reservation-Leaves payload =
        elim (Result-cases (reservation_from_payload c.platform payload)) [
          | inr (e, h) ↦ rw h before
          | inl (view, h) ↦ rw h (ground (arith, before))
        ]

    pub reserve_or_replay-Leaves :
        ((fresh : (r : Reservation) → In r db.reservations → has_id id r ≡ false)
            (free : (s : Seat)
              → In s db.seats
              → is_chosen event ids s ≡ true
              → s.status ≡ SeatStatus.available)
            (view : ReservationView)
          → P (store_record c view (allocate id booking event ids seconds c.now db)))
        → (o : Option ReservationPayload)
        → Leaves P (reserve_or_replay c id booking event ids seconds o db)
    unfolding reserve_or_replay reserve_or_again get_reservation_by_booking
    reserve_or_replay-Leaves done (some payload) = replay_reservation-Leaves payload
    reserve_or_replay-Leaves done none =
        elim (Option-cases (first (has_booking booking) db.reservations)) [
          | inl h ↦ rw h (reserve_new-Leaves done)
          | inr (r, h) ↦ rw h (reserve_again-Leaves r)
        ]

module _ (p : Platform) (settings : Settings) (context : RequestContext) (fresh_id : Text) (now : ℕ)
    (booking_id event_id : Text) (seat_ids : List Text) (hold_seconds : ℕ) (db : Database) where
  -- The transaction, once the request is valid.
  pub reserve_seats-Leaves :
      (P : Database → Type 0)
      → P db
      → ((c : Call) (booking event : Text) (ids : List Text) (seconds : ℕ)
          → Leaves P (
              committed db
                ((replay_or_lock c >>= reserve_or_replay c fresh_id booking event ids seconds) db)))
      → Leaves P (
          reserve_seats p settings context fresh_id now booking_id event_id seat_ids hold_seconds
            db)
  unfolding reserve_seats
  reserve_seats-Leaves P before f = elim (Result-cases (validated true context)) [
    | inr (e, h) ↦ rw h before
    | inl (o, h) ↦ elim (Result-cases (validate_identifier booking_id "bookingId")) [
      | inr (e, i) ↦ rw (h, i) before
      | inl (booking, i) ↦ elim (Result-cases (validate_identifier event_id "eventId")) [
        | inr (e, j) ↦ rw (h, i, j) before
        | inl (event, j) ↦ elim (Result-cases (normalize_seat_ids seat_ids)) [
          | inr (e, k) ↦ rw (h, i, j, k) before
          | inl (ids, k) ↦
              elim (Result-cases (
                validate_hold_seconds hold_seconds settings.min_hold_seconds
                  settings.max_hold_seconds)) [
                    | inr (e, l) ↦ rw (h, i, j, k, l) before
                    | inl (seconds, l) ↦
                        elim (Result-cases (required_key context.idempotency_key)) [
                          | inr (e, m) ↦ rw (h, i, j, k, l, m) before
                          | inl (key, m) ↦
                              rw (h, i, j, k, l, m)
                                (f
                                  (new_call p settings Scope.reserve_seats key
                                    (RequestBody.reserve booking event ids seconds) now)
                                  booking event ids seconds)
                        ]
                  ]
        ]
      ]
    ]
  ]

  pub reserve_seats-IsValid :
      IsValid db
      → Keeps (
          reserve_seats p settings context fresh_id now booking_id event_id seat_ids hold_seconds
            db)
  reserve_seats-IsValid v = reserve_seats-Leaves IsValid v λ c booking event ids seconds.
      let run = reserve_or_replay c fresh_id booking event ids seconds in
      committed-Leaves IsValid db ((replay_or_lock c >>= run) db) v (
        replay_or_lock-Leaves IsValid c run db v (
          reserve_or_replay-Leaves IsValid c fresh_id booking event ids seconds db v (λ _. v)
            (λ fresh free _.
              allocate-IsValid db v fresh_id booking event ids seconds c.now fresh free)))
