-- ===== src/Inventory/Settling/Hold.antt =====
-- The end of an active hold of valid tables: the check of its seats, the loop, the audit rows.
use event_ticketing_soa.Common.{
  ◌+◌, ◌<◌, ◌≤◌, ltb, length, Bool, true, false, ◌≡◌, none, some, List, [], ◌∷◌, arith, refl, inl,
  inr, Bool-cases, Result, ok, err, ◌∙◌, ap, subst, lift, ◌>>=◌, leb, ◌==◌,
}
use event_ticketing_soa.Common.Rows.{
  In, any, select, In-select, select-In, change, update-In, first,
}
use event_ticketing_soa.Common.Text.{Text, text_eq_refl, codes}
use event_ticketing_soa.Inventory.Types.{
  Seat, SeatStatus, Reservation, ReservationStatus, ReservationView,
}
use event_ticketing_soa.Inventory.Errors.{SeatInventoryError}
use event_ticketing_soa.Inventory.Tables.{
  Database, Command, has_id, is_reserved, lock_reservation_seats, get_reservation,
  reservation_to_view,
}
use event_ticketing_soa.Inventory.Replay.{
  Call, is_record, check_record, replay_or_lock, store_record, save_replay, committed,
}
use event_ticketing_soa.Inventory.Commands.{
  close, closed, moved, is_foreign, is_inconsistent, append_audit, close_reservation, confirm_row,
  found, replay_or, on_reservation,
}
use event_ticketing_soa.Inventory.Invariant.{IsValid, Holds, is_reserved-In}

change-true : {A : Type 0} (p : A → Bool) (f : A → A) (x : A) → p x ≡ true → change p f x ≡ f x
change-true p f x h = rw h

change-false : {A : Type 0} (p : A → Bool) (f : A → A) (x : A) → p x ≡ false → change p f x ≡ x
change-false p f x h = rw h

-- A test that no element passes.
any-none :
    {A : Type 0} (p : A → Bool) (xs : List A) → ((x : A) → In x xs → p x ≡ false) → any p xs ≡ false
unfolding any
any-none p [] h = refl
any-none p (x ∷ xs) h = ground (arith, h x (inl refl), any-none p xs (λ y i. h y (inr i)))

-- A seat that is held in the hold's name.
held-is_foreign :
    (id : Text) (s : Seat)
    → s.status ≡ SeatStatus.held
    → s.current_reservation_id ≡ some id
    → is_foreign id s ≡ false
held-is_foreign id s e f = rw (e, f) (rw (text_eq_refl id))

not_nil :
    (id : Text) (ss : List Seat) (s : Seat)
    → In s ss
    → any (is_foreign id) ss ≡ false
    → is_inconsistent id ss ≡ false
unfolding is_inconsistent
not_nil id [] s h k = absurd (cc)
not_nil id (t ∷ ss) s h k = k

-- The hold has ended with this status, and its seats have the other one and no owner.
pub record Settled (t : ReservationStatus) (u : SeatStatus) (q : Reservation)
    (r : Result SeatInventoryError ReservationView × Database) : Type 0 where
  pub view : ReservationView
  pub after : Database
  pub returns : r ≡ (ok view, after)
  pub names : view.reservation_id ≡ q.reservation_id
  pub status : view.status ≡ t
  pub version : view.resource_version ≡ q.resource_version + 1
  pub seats :
      (s : Seat)
      → In s after.seats
      → is_reserved after.reservation_items q.reservation_id s ≡ true
      → (s.status ≡ u) × (s.current_reservation_id ≡ none)

module _ (db : Database) (v : IsValid db) (q : Reservation) (stored : In q db.reservations)
    (active : q.status ≡ ReservationStatus.active) (z : Seat) (seat : In z db.seats)
    (reserved : is_reserved db.reservation_items q.reservation_id z ≡ true) where
  own_seat :
      (s : Seat)
      → In s (select (is_reserved db.reservation_items q.reservation_id) db.seats)
      → is_foreign q.reservation_id s ≡ false
  own_seat s is =
      let (is', h) = select-In (is_reserved db.reservation_items q.reservation_id) db.seats s is in
      let (i, ii, a, b, c) = is_reserved-In db.reservation_items q.reservation_id s h in
      let (e, f) =
        subst (λ w. Holds w q.reservation_id s.status s.current_reservation_id) active
          (v.holds i q s ii stored is'
            (record { of_reservation = a; of_event = b; of_seat = c })) in
      held-is_foreign q.reservation_id s e f

  consistent :
      is_inconsistent q.reservation_id
        (select (is_reserved db.reservation_items q.reservation_id) db.seats)
      ≡ false
  consistent =
      let p = is_reserved db.reservation_items q.reservation_id in
      not_nil q.reservation_id (select p db.seats) z (In-select p db.seats z seat reserved)
        (any-none (is_foreign q.reservation_id) (select p db.seats) own_seat)

  module _ (c : Call) (reason : Text) (audited : length reason ≤ 80) (t : ReservationStatus)
      (u : SeatStatus) where
    moved_seat :
        (s : Seat)
        → In s (close q.reservation_id t u c.now db).seats
        → is_reserved db.reservation_items q.reservation_id s ≡ true
        → (s.status ≡ u) × (s.current_reservation_id ≡ none)
    unfolding close
    moved_seat s is h =
        let p = is_reserved db.reservation_items q.reservation_id in
        let (s', is', e) = update-In p (moved u c.now) db.seats s is in
        elim (Bool-cases (p s')) [
          | inl k ↦
              let f = e ∙ change-true p (moved u c.now) s' k in
              (ap (λ x. x.status) f, ap (λ x. x.current_reservation_id) f)
          | inr k ↦ let f = e ∙ change-false p (moved u c.now) s' k in absurd (cc)
        ]

    pub close_reservation-Settled :
        Settled t u q (close_reservation c q.reservation_id reason t u q db)
    unfolding close_reservation append_audit save_replay lock_reservation_seats reservation_to_view
    close_reservation-Settled =
        let view =
          reservation_to_view c.platform.order_by_seat_id db.reservation_items (closed t c.now q) in
        let fits : ltb 80 (length reason) ≡ false = ground (arith, audited) in
        record {
          view = view;
          after = store_record c view (close q.reservation_id t u c.now db);
          returns = rw (consistent, fits);
          names = refl;
          status = refl;
          version = refl;
          seats = moved_seat;
        }

  pub close_reservation_too_long :
      (c : Call) (reason : Text) (t : ReservationStatus) (u : SeatStatus)
      → 80 < length reason
      → (after : Database) × (close_reservation c q.reservation_id reason t u q db
          ≡ (err SeatInventoryError.data_error, after))
  unfolding close_reservation append_audit lock_reservation_seats
  close_reservation_too_long c reason t u long =
      let fails : ltb 80 (length reason) ≡ true = ground (arith, long) in
      (close q.reservation_id t u c.now db, rw (consistent, fails))

-- A transaction whose key is not stored yet, on a row that is there.
pub on_reservation-fresh :
    (c : Call) (id : Text) (k : Reservation → Command ReservationView) (db : Database)
    (q : Reservation)
    → first (is_record c.scope c.idempotency_key) db.idempotency_records ≡ none
    → first (has_id id) db.reservations ≡ some q
    → on_reservation c id k db ≡ committed db (k q db)
unfolding on_reservation replay_or_lock check_record replay_or get_reservation found
on_reservation-fresh c id k db q h l =
    ap (λ o. committed db ((lift (check_record c.request_hash o) >>= replay_or c id k) db)) h
    ∙ ap (λ o. committed db (found id k o db)) l

pub committed-Settled :
    (t : ReservationStatus) (u : SeatStatus) (q : Reservation) (db : Database)
    (r : Result SeatInventoryError ReservationView × Database)
    → Settled t u q r
    → Settled t u q (committed db r)
committed-Settled t u q db r h = record {
  view = h.view;
  after = h.after;
  returns = ap (committed db) h.returns;
  names = h.names;
  status = h.status;
  version = h.version;
  seats = h.seats;
}

pub confirm_row-active :
    (c : Call) (id : Text) (q : Reservation) (db : Database)
    → q.status ≡ ReservationStatus.active
    → c.now < q.expires_at
    → confirm_row c id q.resource_version q db
      ≡ close_reservation c id
          (codes "PAYMENT_CONFIRMED")
          ReservationStatus.confirmed
          SeatStatus.sold
          q
          db
unfolding confirm_row
confirm_row-active c id q db a l =
    let e : leb q.expires_at c.now ≡ false = ground arith in
    let f : (q.resource_version == q.resource_version) ≡ true = ground arith in rw (a, e, f)
