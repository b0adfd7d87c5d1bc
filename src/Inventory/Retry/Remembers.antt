-- ===== src/Inventory/Retry/Remembers.antt =====
-- The stored response of a transaction on one reservation, and what a second call makes of it.
use event_ticketing_soa.Common.{
  ℕ, true, false, ◌≡◌, Option, none, some, arith, refl, inl, inr, Bool-cases, Result, Result-cases,
  ok, err, Ensures, lift, ◌>>=◌, ap, sym, ◌∙◌, subst, ltb, length,
}
use event_ticketing_soa.Common.Rows.{first, select}
use event_ticketing_soa.Common.Text.{Text, text_eq, text_eq_refl, codes}
use event_ticketing_soa.Inventory.Types.{
  SeatStatus, Reservation, ReservationStatus, ReservationView,
}
use event_ticketing_soa.Inventory.Errors.{SeatInventoryError}
use event_ticketing_soa.Inventory.Tables.{
  Database, Command, Scope, scope_eq, ReservationPayload, IdempotencyRecord, has_id, is_reserved,
  get_reservation, lock_reservation_seats,
}
use event_ticketing_soa.Inventory.Payload.{
  reservation_to_payload, reservation_from_payload, reservation_from_payload-reservation_to_payload,
}
use event_ticketing_soa.Inventory.Replay.{
  Call, is_record, check_record, replay_or_lock, store_record, save_replay, committed,
}
use event_ticketing_soa.Inventory.Commands.{
  is_inconsistent, append_audit, close_reservation, reply_with_row, confirm_row, release_row,
  extend_row, extend, extended, found, replay_or, on_reservation,
}

-- The table answers the call's key and digest with this view.
pub record Remembers (c : Call) (view : ReservationView) (db : Database) : Type 0 where
  pub payload : ReservationPayload
  pub stored :
      check_record c.request_hash
        (first (is_record c.scope c.idempotency_key) db.idempotency_records)
      ≡ ok (some payload)
  pub reads : reservation_from_payload c.platform payload ≡ ok view

scope_eq_refl : (s : Scope) → scope_eq s s ≡ true
scope_eq_refl Scope.reserve_seats = refl
scope_eq_refl Scope.confirm_seats = refl
scope_eq_refl Scope.release_seats = refl
scope_eq_refl Scope.extend_reservation = refl

pub store_record-Remembers :
    (c : Call) (view : ReservationView) (db : Database)
    → ((t : ℕ) → c.platform.fromisoformat (c.platform.isoformat t) ≡ some t)
    → Remembers c view (store_record c view db)
unfolding first check_record
store_record-Remembers c view db h = record {
  payload = reservation_to_payload c.platform view;
  stored = rw (scope_eq_refl c.scope, text_eq_refl c.idempotency_key, text_eq_refl c.request_hash);
  reads = reservation_from_payload-reservation_to_payload c.platform h view;
}

-- What a command on a row returns, it has stored.
module _ (Q : ReservationView → Database → Type 0) (c : Call) (id : Text) (q : Reservation) where
  close_reservation-Ensures :
      (reason : Text) (t : ReservationStatus) (u : SeatStatus) (db : Database)
      → ((view : ReservationView) (after : Database) → Q view (store_record c view after))
      → Ensures Q (close_reservation c id reason t u q db)
  unfolding close_reservation append_audit save_replay lock_reservation_seats
  close_reservation-Ensures reason t u db saved =
      let seats = select (is_reserved db.reservation_items id) db.seats in
      elim (Bool-cases (is_inconsistent id seats)) [
        | inl h ↦ rw h tt
        | inr h ↦ elim (Bool-cases (ltb 80 (length reason))) [
          | inl k ↦ rw (h, k) tt
          | inr k ↦ rw (h, k) (saved _ _)
        ]
      ]

  module _
      (saved : (view : ReservationView) (after : Database)
        → Q view (store_record c view after)) where
    reply_with_row-Ensures : (r : Reservation) (db : Database) → Ensures Q (reply_with_row c r db)
    unfolding reply_with_row save_replay
    reply_with_row-Ensures r db = saved _ _

    pub confirm_row-Ensures : (n : ℕ) (db : Database) → Ensures Q (confirm_row c id n q db)
    unfolding confirm_row
    confirm_row-Ensures n db = ground (
      arith,
      reply_with_row-Ensures q db,
      close_reservation-Ensures (codes "PAYMENT_CONFIRMED") ReservationStatus.confirmed
          SeatStatus.sold db saved,
    )

    pub release_row-Ensures :
        (reason : Text) (db : Database) → Ensures Q (release_row c id reason q db)
    unfolding release_row
    release_row-Ensures reason db = ground (
      arith,
      reply_with_row-Ensures q db,
      close_reservation-Ensures reason ReservationStatus.released SeatStatus.available db saved,
    )

    pub extend_row-Ensures :
        (n seconds : ℕ) (db : Database) → Ensures Q (extend_row c id n seconds q db)
    unfolding extend_row
    extend_row-Ensures n seconds db =
        let after = extend id seconds c.now db in
        ground (arith, reply_with_row-Ensures (extended seconds c.now q) after)

-- A transaction, after the look at the stored responses.
on_reservation-checked :
    (c : Call) (id : Text) (k : Reservation → Command ReservationView) (db : Database)
    (r : Result SeatInventoryError (Option ReservationPayload))
    → check_record c.request_hash
        (first (is_record c.scope c.idempotency_key) db.idempotency_records)
      ≡ r
    → on_reservation c id k db ≡ committed db ((lift r >>= replay_or c id k) db)
unfolding on_reservation replay_or_lock
on_reservation-checked c id k db r h = ap (λ x. committed db ((lift x >>= replay_or c id k) db)) h

-- A transaction that returns has its response stored, and so has one that found it.
module _ (c : Call) (id : Text) (k : Reservation → Command ReservationView)
    (returns : (q : Reservation) (db : Database) → Ensures (Remembers c) (k q db)) where
  found-Ensures : (o : Option Reservation) (db : Database) → Ensures (Remembers c) (found id k o db)
  unfolding found
  found-Ensures none db = tt
  found-Ensures (some q) db = returns q db

  committed-Ensures :
      (db : Database) (r : Result SeatInventoryError ReservationView × Database)
      → Ensures (Remembers c) r
      → Ensures (Remembers c) (committed db r)
  committed-Ensures db (ok view, after) h = h
  committed-Ensures db (err e, after) h = tt

  replay_or-Ensures :
      (o : Option ReservationPayload) (db : Database)
      → check_record c.request_hash
          (first (is_record c.scope c.idempotency_key) db.idempotency_records)
        ≡ ok o
      → Ensures (Remembers c) (replay_or c id k o db)
  unfolding replay_or get_reservation
  replay_or-Ensures none db h = found-Ensures (first (has_id id) db.reservations) db
  replay_or-Ensures (some payload) db h =
      elim (Result-cases (reservation_from_payload c.platform payload)) [
        | inl (view, e) ↦ rw e (record { payload = payload; stored = h; reads = e })
        | inr (x, e) ↦ rw e tt
      ]

  pub on_reservation-Remembers : (db : Database) → Ensures (Remembers c) (on_reservation c id k db)
  on_reservation-Remembers db =
      elim (Result-cases (
        check_record c.request_hash
          (first (is_record c.scope c.idempotency_key) db.idempotency_records))) [
            | inl (o, h) ↦
                subst (Ensures (Remembers c)) (sym (on_reservation-checked c id k db (ok o) h))
                  (committed-Ensures db (replay_or c id k o db) (replay_or-Ensures o db h))
            | inr (e, h) ↦
                subst (Ensures (Remembers c)) (sym (on_reservation-checked c id k db (err e) h)) tt
          ]

-- A call whose response is stored returns it and writes nothing, whatever its command is.
pub Remembers-on_reservation :
    (c : Call) (id : Text) (k : Reservation → Command ReservationView) (view : ReservationView)
    (db : Database)
    → Remembers c view db
    → on_reservation c id k db ≡ (ok view, db)
unfolding replay_or
Remembers-on_reservation c id k view db r =
    on_reservation-checked c id k db (ok (some r.payload)) r.stored
    ∙ ap (λ x. committed db (x, db)) r.reads

-- A call whose key is stored with another digest is refused.
pub conflict-on_reservation :
    (c : Call) (id : Text) (k : Reservation → Command ReservationView) (db : Database)
    (r : IdempotencyRecord)
    → first (is_record c.scope c.idempotency_key) db.idempotency_records ≡ some r
    → text_eq r.request_hash c.request_hash ≡ false
    → on_reservation c id k db ≡ (err SeatInventoryError.idempotency_conflict, db)
unfolding check_record
conflict-on_reservation c id k db r h e =
    on_reservation-checked c id k db (err SeatInventoryError.idempotency_conflict) (rw (h, e))
