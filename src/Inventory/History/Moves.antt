-- ===== src/Inventory/History/Moves.antt =====
-- Every request moves the seats as `Spec` allows.
use event_ticketing_soa.Common.{
  ℕ, Bool, true, false, ◌≡◌, Option, none, some, List, [], ◌∷◌, arith, refl, inl, inr, Bool-cases,
  Option-cases, Leaves, ◌>>=◌, sym, subst, ltb, length, ltb, length,
}
use event_ticketing_soa.Common.Rows.{In, any-In, select, In-select}
use event_ticketing_soa.Common.Text.{Text, text_eq_iff, codes}
use event_ticketing_soa.Inventory.Types.{Seat, SeatStatus, Reservation, ReservationStatus}
use event_ticketing_soa.Inventory.Rules.{RequestContext}
use event_ticketing_soa.Inventory.Tables.{Database, is_chosen, is_reserved, lock_reservation_seats}
use event_ticketing_soa.Inventory.Payload.{Platform}
use event_ticketing_soa.Inventory.Replay.{Settings, Call, replay_or_lock, save_replay}
use event_ticketing_soa.Inventory.Commands.{
  hold, moved, close, is_foreign, is_inconsistent, append_audit, close_reservation, reply_with_row,
  extend, extended, allocate, confirm_seats, release_seats, extend_reservation, reserve_seats,
  confirm_row, release_row, extend_row, reserve_or_replay, expire_one, expire_each, expire_batch,
  expire_reservations, order_due, take, is_due,
}
use event_ticketing_soa.Inventory.Invariant.{
  closes, committed-Leaves, replay_or_lock-Leaves, on_reservation-Leaves, confirm_row-Leaves,
  release_row-Leaves, extend_row-Leaves, confirm_seats-Leaves, release_seats-Leaves,
  extend_reservation-Leaves, reserve_seats-Leaves, reserve_or_replay-Leaves,
  expire_reservations-Leaves,
}
use event_ticketing_soa.Inventory.History.Requests.{Request, Arrival, perform, serve}
use event_ticketing_soa.Inventory.History.Spec.{
  Ownership, ownership, Move, Moves, Follows, AllFollow, AllFollow-refl, AllFollow-trans,
  AllFollow-update, sold-stays,
}

one : {a b : Ownership} → Move a b → Moves a b
one m = Moves.after m Moves.stay

-- A free seat is held for the new reservation.
hold-Follows :
    (id : Text) (now : ℕ) (s : Seat) → s.status ≡ SeatStatus.available → Follows s (hold id now s)
hold-Follows id now s e = record {
  same_event = refl;
  same_seat = refl;
  moves =
      subst (λ w. Moves (ownership w s.current_reservation_id) (Ownership.held (some id))) (sym e)
        (one (Move.allocate id));
}

-- The end of a hold, for a seat that is held in its name.
moved-moves :
    (id : Text) (t : ReservationStatus) (u : SeatStatus)
    → closes t u ≡ true
    → Moves (Ownership.held (some id)) (ownership u none)
moved-moves id t SeatStatus.sold h = one (Move.sell id)
moved-moves id t SeatStatus.available h = one (Move.give_back id)
moved-moves id t SeatStatus.held h = absurd (ground arith)
moved-moves id t SeatStatus.blocked h = absurd (ground arith)

is_foreign-held :
    (id : Text) (s : Seat)
    → is_foreign id s ≡ false
    → (s.status ≡ SeatStatus.held) × (s.current_reservation_id ≡ some id)
is_foreign-held id s h = (
  ground arith,
  elim (Option-cases s.current_reservation_id) [
    | inl k ↦ ground arith
    | inr (o, k) ↦ ground (arith, text_eq_iff o id)
  ],
)

moved-Follows :
    (id : Text) (t : ReservationStatus) (u : SeatStatus) (now : ℕ) (s : Seat)
    → closes t u ≡ true
    → is_foreign id s ≡ false
    → Follows s (moved u now s)
moved-Follows id t u now s h k =
    let (e, f) = is_foreign-held id s k in
    record {
      same_event = refl;
      same_seat = refl;
      moves =
          subst (λ w. Moves (ownership w s.current_reservation_id) (ownership u none)) (sym e)
            (subst (λ o. Moves (Ownership.held o) (ownership u none)) (sym f)
              (moved-moves id t u h));
    }

-- In a consistent allocation every seat is held in its name.
close-AllFollow :
    (id : Text) (t : ReservationStatus) (u : SeatStatus) (now : ℕ) (db : Database)
    → closes t u ≡ true
    → is_inconsistent id (select (is_reserved db.reservation_items id) db.seats) ≡ false
    → AllFollow db.seats (close id t u now db).seats
unfolding close is_inconsistent
close-AllFollow id t u now db h k =
    let p = is_reserved db.reservation_items id in
    AllFollow-update p (moved u now) db.seats λ s is r.
      moved-Follows id t u now s h (elim (Bool-cases (is_foreign id s)) [
        | inl l ↦ absurd (
            let m = any-In (is_foreign id) (select p db.seats) s (In-select p db.seats s is r) l in
            ground arith)
        | inr l ↦ l
      ])

-- From the tables before, in a transaction.
abbrev Advances : Database → Database → Type 0
Advances db after = AllFollow db.seats after.seats

close_reservation-Advances :
    (c : Call) (id reason : Text) (t : ReservationStatus) (u : SeatStatus) (q : Reservation)
    (db : Database)
    → closes t u ≡ true
    → Leaves (Advances db) (close_reservation c id reason t u q db)
unfolding close_reservation append_audit save_replay lock_reservation_seats
close_reservation-Advances c id reason t u q db h =
    let seats = select (is_reserved db.reservation_items id) db.seats in
    elim (Bool-cases (is_inconsistent id seats)) [
      | inl k ↦ rw k (AllFollow-refl db.seats)
      | inr k ↦ elim (Bool-cases (ltb 80 (length reason))) [
        | inl l ↦ rw (k, l) (close-AllFollow id t u c.now db h k)
        | inr l ↦ rw (k, l) (close-AllFollow id t u c.now db h k)
      ]
    ]

reply_with_row-Advances :
    (c : Call) (r : Reservation) (db after : Database)
    → Advances db after
    → Leaves (Advances db) (reply_with_row c r after)
unfolding reply_with_row save_replay
reply_with_row-Advances c r db after h = h

allocate-Advances :
    (id booking event : Text) (ids : List Text) (seconds now : ℕ) (db : Database)
    → ((s : Seat) → In s db.seats → is_chosen event ids s ≡ true → s.status ≡ SeatStatus.available)
    → Advances db (allocate id booking event ids seconds now db)
unfolding allocate
allocate-Advances id booking event ids seconds now db free =
    AllFollow-update (is_chosen event ids) (hold id now) db.seats
      λ s is h. hold-Follows id now s (free s is h)

module _ (p : Platform) (settings : Settings) (context : RequestContext) (now : ℕ)
    (db : Database) where
  confirm_seats-Advances :
      (id : Text) (n : ℕ) → Leaves (Advances db) (confirm_seats p settings context now id n db)
  confirm_seats-Advances id n =
      let P = Advances db in
      let same = AllFollow-refl db.seats in
      confirm_seats-Leaves P p settings context now id db same n λ c x.
        on_reservation-Leaves P c x (confirm_row c x n) db same λ q iq e.
          subst (λ y. Leaves P (confirm_row c y n q db)) e
            (confirm_row-Leaves P c q db same n (reply_with_row-Advances c q db db same) λ a.
              close_reservation-Advances c q.reservation_id (codes "PAYMENT_CONFIRMED")
                ReservationStatus.confirmed SeatStatus.sold q db refl)

  release_seats-Advances :
      (id reason : Text) → Leaves (Advances db) (release_seats p settings context now id reason db)
  release_seats-Advances id reason =
      let P = Advances db in
      let same = AllFollow-refl db.seats in
      release_seats-Leaves P p settings context now id db same reason λ c x y.
        on_reservation-Leaves P c x (release_row c x y) db same λ q iq e.
          subst (λ z. Leaves P (release_row c z y q db)) e
            (release_row-Leaves P c q db same y (reply_with_row-Advances c q db db same) λ a.
              close_reservation-Advances c q.reservation_id y ReservationStatus.released
                SeatStatus.available q db refl)

  extend_reservation-Advances :
      (id : Text) (n seconds : ℕ)
      → Leaves (Advances db) (extend_reservation p settings context now id n seconds db)
  extend_reservation-Advances id n seconds =
      let P = Advances db in
      let same = AllFollow-refl db.seats in
      extend_reservation-Leaves P p settings context now id db same n seconds λ c x t.
        on_reservation-Leaves P c x (extend_row c x n t) db same λ q iq e.
          subst (λ y. Leaves P (extend_row c y n t q db)) e
            (extend_row-Leaves P c q db same n t (
              reply_with_row-Advances c (extended t c.now q) db (extend q.reservation_id t c.now db)
                same))

  reserve_seats-Advances :
      (fresh_id booking event : Text) (ids : List Text) (seconds : ℕ)
      → Leaves
          (Advances db)
          (reserve_seats p settings context fresh_id now booking event ids seconds db)
  reserve_seats-Advances fresh_id booking event ids seconds =
      let P = Advances db in
      let same = AllFollow-refl db.seats in
      reserve_seats-Leaves p settings context fresh_id now booking event ids seconds db P same
        λ c b e xs t.
          let run = reserve_or_replay c fresh_id b e xs t in
          committed-Leaves P db ((replay_or_lock c >>= run) db) same (
            replay_or_lock-Leaves P c run db same (
              reserve_or_replay-Leaves P c fresh_id b e xs t db same (λ _. same)
                (λ _ free _. allocate-Advances fresh_id b e xs t c.now db free)))

expire_one-Advances :
    (now : ℕ) (r : Reservation) (db : Database) → Advances db (expire_one now r db).1
unfolding expire_one
expire_one-Advances now r db =
    let id = r.reservation_id in
    let seats = select (is_reserved db.reservation_items id) db.seats in
    elim (Bool-cases (is_inconsistent id seats)) [
      | inl h ↦ rw h (AllFollow-refl db.seats)
      | inr h ↦
          rw h (close-AllFollow id ReservationStatus.expired SeatStatus.available now db refl h)
    ]

expire_each-Advances :
    (now : ℕ) (rs : List Reservation) (db : Database) → Advances db (expire_each now rs db).1
unfolding expire_each
expire_each-Advances now [] db = AllFollow-refl db.seats
expire_each-Advances now (r ∷ rs) db =
    let mid = (expire_one now r db).1 in
    AllFollow-trans db.seats mid.seats (expire_each now rs mid).1.seats
      (expire_one-Advances now r db) (expire_each-Advances now rs mid)

expire_reservations-Advances :
    (settings : Settings) (context : RequestContext) (locked : Text → Bool) (now : ℕ)
    (size : Option ℕ) (db : Database)
    → Leaves (Advances db) (expire_reservations settings context locked now size db)
unfolding expire_batch
expire_reservations-Advances settings context locked now size db =
    let same = AllFollow-refl db.seats in
    expire_reservations-Leaves (Advances db) settings context locked now size db same λ n.
      expire_each-Advances now (take n (order_due (select (is_due locked now) db.reservations))) db

perform-Advances :
    (p : Platform) (settings : Settings) (context : RequestContext) (now : ℕ) (r : Request)
    (db : Database)
    → Advances db (perform p settings context now r db)
unfolding perform
perform-Advances p settings context now (Request.reserve id booking event seats seconds) db =
    reserve_seats-Advances p settings context now db id booking event seats seconds
perform-Advances p settings context now (Request.confirm id version) db =
    confirm_seats-Advances p settings context now db id version
perform-Advances p settings context now (Request.release id reason) db =
    release_seats-Advances p settings context now db id reason
perform-Advances p settings context now (Request.extend id version seconds) db =
    extend_reservation-Advances p settings context now db id version seconds
perform-Advances p settings context now (Request.expire locked size) db =
    expire_reservations-Advances settings context locked now size db

-- Whatever the requests, a seat moves only from free to held, and from held to sold or back to
-- free; no row of the seats is added, dropped or given another key.
pub serve-refines :
    (p : Platform) (settings : Settings) (calls : List Arrival) (db : Database)
    → AllFollow db.seats (serve p settings calls db).seats
unfolding serve
serve-refines p settings [] db = AllFollow-refl db.seats
serve-refines p settings (a ∷ calls) db =
    let mid = perform p settings a.context a.now a.request db in
    AllFollow-trans db.seats mid.seats (serve p settings calls mid).seats
      (perform-Advances p settings a.context a.now a.request db)
      (serve-refines p settings calls mid)

-- The row of a seat, after.
AllFollow-In :
    (ss ts : List Seat) (s : Seat) → AllFollow ss ts → In s ss → (t : Seat) × In t ts × Follows s t
AllFollow-In [] ts s f i = absurd (cc)
AllFollow-In (x ∷ ss) [] s f i = absurd (cc)
AllFollow-In (x ∷ ss) (t ∷ ts) s (f, fs) (inl e) = (t, inl refl, subst (λ y. Follows y t) (sym e) f)
AllFollow-In (x ∷ ss) (t ∷ ts) s (f, fs) (inr i) =
    let (u, k, g) = AllFollow-In ss ts s fs i in (u, inr k, g)

ownership-sold :
    (w : SeatStatus) (o : Option Text) → ownership w o ≡ Ownership.sold → w ≡ SeatStatus.sold
ownership-sold SeatStatus.available o h = absurd (cc)
ownership-sold SeatStatus.held o h = absurd (cc)
ownership-sold SeatStatus.sold o h = refl
ownership-sold SeatStatus.blocked o h = absurd (cc)

-- A seat that is sold is still there, and sold, after any sequence of requests.
pub serve-sold :
    (p : Platform) (settings : Settings) (calls : List Arrival) (db : Database) (s : Seat)
    → In s db.seats
    → s.status ≡ SeatStatus.sold
    → (t : Seat) × In t (serve p settings calls db).seats
      × (t.event_id ≡ s.event_id)
      × (t.seat_id ≡ s.seat_id)
      × (t.status ≡ SeatStatus.sold)
serve-sold p settings calls db s is e =
    let (t, it, f) =
      AllFollow-In db.seats (serve p settings calls db).seats s (serve-refines p settings calls db)
        is in
    let m : Moves Ownership.sold (ownership t.status t.current_reservation_id) =
      subst
        (λ w.
          Moves (ownership w s.current_reservation_id)
            (ownership t.status t.current_reservation_id))
        e f.moves in
    (
      t,
      it,
      f.same_event,
      f.same_seat,
      ownership-sold t.status t.current_reservation_id (sold-stays m),
    )
