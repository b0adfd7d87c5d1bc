-- ===== src/Inventory/Invariant/Expire.antt =====
-- `expire_reservations` keeps the invariant.
use event_ticketing_soa.Common.{
  ℕ, Bool, false, ◌≡◌, Option, some, List, [], ◌∷◌, arith, refl, inl, inr, Bool-cases, Result-cases,
  Leaves, subst, Option-cases, leb, ◌&&◌,
}
use event_ticketing_soa.Common.Rows.{In, any, select, select-In}
use event_ticketing_soa.Common.Text.{Text, text_eq_iff}
use event_ticketing_soa.Inventory.Types.{Seat, SeatStatus, Reservation, ReservationStatus}
use event_ticketing_soa.Inventory.Rules.{RequestContext, validated}
use event_ticketing_soa.Inventory.Tables.{Database, is_reserved}
use event_ticketing_soa.Inventory.Replay.{Settings}
use event_ticketing_soa.Inventory.Commands.{
  is_inconsistent, is_foreign, close, expire_one, expire_each, take, order_due, is_due,
  batch_or_default, expire_batch, expire_reservations,
}
use event_ticketing_soa.Inventory.Invariant.Defs.{IsValid, Backed}
use event_ticketing_soa.Inventory.Invariant.Close.{close-IsValid}
use event_ticketing_soa.Inventory.Invariant.Keeps.{Keeps, committed-Leaves}

-- A consistent hold has a seat, which is held in its name.
is_inconsistent-held :
    (id : Text) (seats : List Seat)
    → is_inconsistent id seats ≡ false
    → (s : Seat) × In s seats × (s.status ≡ SeatStatus.held) × (s.current_reservation_id ≡ some id)
unfolding is_inconsistent any
is_inconsistent-held id [] h = absurd (cc)
is_inconsistent-held id (s ∷ ss) h =
    let mine : is_foreign id s ≡ false = ground arith in
    (
      s,
      inl refl,
      ground arith,
      elim (Option-cases s.current_reservation_id) [
        | inl k ↦ ground arith
        | inr (o, k) ↦ ground (arith, text_eq_iff o id)
      ],
    )

-- So the hold that a round closes is stored, and active.
consistent_row :
    (id : Text) (db : Database)
    → IsValid db
    → is_inconsistent id (select (is_reserved db.reservation_items id) db.seats) ≡ false
    → (q : Reservation) × In q db.reservations
      × (q.status ≡ ReservationStatus.active)
      × (q.reservation_id ≡ id)
consistent_row id db v h =
    let seats = select (is_reserved db.reservation_items id) db.seats in
    let (s, is, e, f) = is_inconsistent-held id seats h in
    let (is', _) = select-In (is_reserved db.reservation_items id) db.seats s is in
    let (b, k) = subst (Backed db.reservations db.reservation_items s) e (v.backed s is') in
    (b.row, b.stored, b.in_status, cc)

expire_one-IsValid :
    (now : ℕ) (r : Reservation) (db : Database) → IsValid db → IsValid (expire_one now r db).1
unfolding expire_one
expire_one-IsValid now r db v =
    let id = r.reservation_id in
    let seats = select (is_reserved db.reservation_items id) db.seats in
    elim (Bool-cases (is_inconsistent id seats)) [
      | inl h ↦ rw h v
      | inr h ↦
          let (q, iq, a, e) = consistent_row id db v h in
          rw h (
            subst (λ x. IsValid (close x ReservationStatus.expired SeatStatus.available now db)) e
              (close-IsValid db v q iq a ReservationStatus.expired SeatStatus.available refl now))
    ]

expire_each-IsValid :
    (now : ℕ) (rs : List Reservation) (db : Database)
    → IsValid db
    → IsValid (expire_each now rs db).1
unfolding expire_each
expire_each-IsValid now [] db v = v
expire_each-IsValid now (r ∷ rs) db v =
    expire_each-IsValid now rs (expire_one now r db).1 (expire_one-IsValid now r db v)

-- The transaction, once the request is valid.
pub expire_reservations-Leaves :
    (P : Database → Type 0) (settings : Settings) (context : RequestContext) (locked : Text → Bool)
    (now : ℕ) (batch_size : Option ℕ) (db : Database)
    → P db
    → ((size : ℕ) → Leaves P (expire_batch locked now size db))
    → Leaves P (expire_reservations settings context locked now batch_size db)
unfolding expire_reservations
expire_reservations-Leaves P settings context locked now batch_size db before f =
    let size = batch_or_default batch_size settings.expiry_batch_size in
    elim (Result-cases (validated false context)) [
      | inr (e, h) ↦ rw h before
      | inl (o, h) ↦ elim (Bool-cases (leb 1 size && leb size 1000)) [
        | inl k ↦
            rw (h, k) (committed-Leaves P db (expire_batch locked now size db) before (f size))
        | inr k ↦ rw (h, k) before
      ]
    ]

expire_batch-IsValid :
    (locked : Text → Bool) (now size : ℕ) (db : Database)
    → IsValid db
    → Keeps (expire_batch locked now size db)
unfolding expire_batch
expire_batch-IsValid locked now size db v =
    expire_each-IsValid now (take size (order_due (select (is_due locked now) db.reservations))) db
      v

pub expire_reservations-IsValid :
    (settings : Settings) (context : RequestContext) (locked : Text → Bool) (now : ℕ)
    (batch_size : Option ℕ) (db : Database)
    → IsValid db
    → Keeps (expire_reservations settings context locked now batch_size db)
expire_reservations-IsValid settings context locked now batch_size db v =
    expire_reservations-Leaves IsValid settings context locked now batch_size db v
      λ size. expire_batch-IsValid locked now size db v
