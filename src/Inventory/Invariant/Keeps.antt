-- ===== src/Inventory/Invariant/Keeps.antt =====
-- The commands keep the invariant, whether they return or raise.
use event_ticketing_soa.Common.{
  ℕ, true, ◌≡◌, Option, none, some, arith, refl, inl, inr, Bool-cases, Result, ok, err, Leaves,
  ◌>>=◌, lift, ltb, length,
}
use event_ticketing_soa.Common.Rows.{In, In-first, first, select}
use event_ticketing_soa.Common.Text.{Text, text_eq_iff, codes}
use event_ticketing_soa.Inventory.Types.{
  SeatStatus, Reservation, ReservationStatus, ReservationView,
}
use event_ticketing_soa.Inventory.Errors.{SeatInventoryError}
use event_ticketing_soa.Inventory.Tables.{
  Database, Command, has_id, get_reservation, lock_reservation_seats, is_reserved,
  ReservationPayload,
}
use event_ticketing_soa.Inventory.Replay.{
  Call, save_replay, replay_or_lock, committed, is_record, check_record,
}
use event_ticketing_soa.Inventory.Commands.{
  append_audit, close_reservation, reply_with_row, is_inconsistent, confirm_row, release_row,
  extend_row, extend, extended, found, replay_or, on_reservation,
}
use event_ticketing_soa.Inventory.Invariant.Defs.{IsValid}
use event_ticketing_soa.Inventory.Invariant.Close.{closes, close-IsValid}

abbrev pub Keeps : {A : Type 0} → Result SeatInventoryError A × Database → Type 0
Keeps = Leaves IsValid

pub close_reservation-Keeps :
    (c : Call) (reason : Text) (t : ReservationStatus) (u : SeatStatus) (q : Reservation)
    (db : Database)
    → IsValid db
    → In q db.reservations
    → q.status ≡ ReservationStatus.active
    → closes t u ≡ true
    → Keeps (close_reservation c q.reservation_id reason t u q db)
unfolding close_reservation append_audit save_replay lock_reservation_seats
close_reservation-Keeps c reason t u q db v iq a e =
    let seats = select (is_reserved db.reservation_items q.reservation_id) db.seats in
    let after = close-IsValid db v q iq a t u e c.now in
    elim (Bool-cases (is_inconsistent q.reservation_id seats)) [
      | inl h ↦ rw h v
      | inr h ↦ elim (Bool-cases (ltb 80 (length reason))) [
        | inl k ↦ rw (h, k) after
        | inr k ↦ rw (h, k) after
      ]
    ]

pub reply_with_row-Keeps :
    (c : Call) (r : Reservation) (db : Database) → IsValid db → Keeps (reply_with_row c r db)
unfolding reply_with_row save_replay
reply_with_row-Keeps c r db v = v

-- The control flow of the commands on a row, for any property of the tables.
module _ (P : Database → Type 0) (c : Call) (q : Reservation) (db : Database) (before : P db) where
  pub confirm_row-Leaves :
      (n : ℕ)
      → Leaves P (reply_with_row c q db)
      → (q.status ≡ ReservationStatus.active
          → Leaves P (
              close_reservation c q.reservation_id
                (codes "PAYMENT_CONFIRMED")
                ReservationStatus.confirmed
                SeatStatus.sold
                q
                db))
      → Leaves P (confirm_row c q.reservation_id n q db)
  unfolding confirm_row
  confirm_row-Leaves n reply done = ground (arith, before, reply, done)

  pub release_row-Leaves :
      (reason : Text)
      → Leaves P (reply_with_row c q db)
      → (q.status ≡ ReservationStatus.active
          → Leaves P (
              close_reservation c q.reservation_id reason ReservationStatus.released
                SeatStatus.available q db))
      → Leaves P (release_row c q.reservation_id reason q db)
  unfolding release_row
  release_row-Leaves reason reply done = ground (arith, before, reply, done)

  pub extend_row-Leaves :
      (n seconds : ℕ)
      → Leaves P
          (reply_with_row c (extended seconds c.now q) (extend q.reservation_id seconds c.now db))
      → Leaves P (extend_row c q.reservation_id n seconds q db)
  unfolding extend_row
  extend_row-Leaves n seconds done = ground (arith, before, done)

-- A transaction leaves the tables as they were, or as its body does.
pub committed-Leaves :
    {A : Type 0} (P : Database → Type 0) (db : Database)
    (r : Result SeatInventoryError A × Database)
    → P db
    → Leaves P r
    → Leaves P (committed db r)
committed-Leaves P db (ok a, db') v h = h
committed-Leaves P db (err e, db') v h = v

-- A call of a pure function that may raise.
pub lift-Leaves :
    {A B : Type 0} (P : Database → Type 0) (r : Result SeatInventoryError B) (k : B → Command A)
    (db : Database)
    → P db
    → ((b : B) → r ≡ ok b → Leaves P (k b db))
    → Leaves P ((lift r >>= k) db)
lift-Leaves P (ok b) k db v f = f b refl
lift-Leaves P (err e) k db v f = v

-- After the look at the stored responses, which writes nothing.
pub replay_or_lock-Leaves :
    {A : Type 0} (P : Database → Type 0) (c : Call) (k : Option ReservationPayload → Command A)
    (db : Database)
    → P db
    → ((o : Option ReservationPayload) → Leaves P (k o db))
    → Leaves P ((replay_or_lock c >>= k) db)
unfolding replay_or_lock
replay_or_lock-Leaves P c k db v f =
    let o = first (is_record c.scope c.idempotency_key) db.idempotency_records in
    lift-Leaves P (check_record c.request_hash o) k db v (λ a _. f a)

module _ (P : Database → Type 0) (c : Call) (id : Text) (k : Reservation → Command ReservationView)
    (db : Database) (before : P db)
    (row : (q : Reservation)
      → In q db.reservations
      → q.reservation_id ≡ id
      → Leaves P (k q db)) where
  found-Leaves :
      (o : Option Reservation) → first (has_id id) db.reservations ≡ o → Leaves P (found id k o db)
  unfolding found
  found-Leaves none h = before
  found-Leaves (some q) h =
      let (iq, e) = In-first (has_id id) db.reservations h in
      row q iq ((text_eq_iff q.reservation_id id).0 e)

  replay_or-Leaves : (o : Option ReservationPayload) → Leaves P (replay_or c id k o db)
  unfolding replay_or get_reservation
  replay_or-Leaves (some payload) = before
  replay_or-Leaves none = found-Leaves (first (has_id id) db.reservations) refl

  -- A transaction on one reservation leaves what its command on the locked row leaves.
  pub on_reservation-Leaves : Leaves P (on_reservation c id k db)
  unfolding on_reservation
  on_reservation-Leaves =
      committed-Leaves P db ((replay_or_lock c >>= replay_or c id k) db) before
        (replay_or_lock-Leaves P c (replay_or c id k) db before replay_or-Leaves)
