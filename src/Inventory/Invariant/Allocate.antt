-- ===== src/Inventory/Invariant/Allocate.antt =====
-- A new reservation of available seats keeps the invariant.
use event_ticketing_soa.Common.{
  ℕ, true, false, ◌≡◌, Option, some, List, map, arith, refl, ◌⊎◌, inl, inr, Bool-cases, sym, ◌∙◌,
  ap, subst,
}
use event_ticketing_soa.Common.Rows.{
  In, select, change, update-In, append-In, In-append_left, In-append_right, map-In, In-map,
  select-In, In-select,
}
use event_ticketing_soa.Common.Text.{Text, text_eq_iff}
use event_ticketing_soa.Inventory.Types.{
  Seat, SeatStatus, Reservation, ReservationStatus, ReservationItem,
}
use event_ticketing_soa.Inventory.Tables.{Database, is_reserved, is_chosen, has_id}
use event_ticketing_soa.Inventory.Commands.{allocate, new_reservation, new_item, hold}
use event_ticketing_soa.Inventory.Invariant.Defs.{
  IsValid, Joins, Holds, Backed, Backer, is_live, is_reserved-In, In-is_reserved,
}

-- A seat that no live reservation can hold says nothing of the others.
Holds-free :
    (st : ReservationStatus) (id : Text) (o o' : Option Text) (w : SeatStatus)
    → Holds st id SeatStatus.available o
    → Holds st id w o'
Holds-free ReservationStatus.active id o o' w h = absurd (ground arith)
Holds-free ReservationStatus.confirmed id o o' w h = absurd (ground arith)
Holds-free ReservationStatus.released id o o' w h = tt
Holds-free ReservationStatus.expired id o o' w h = tt

module _ (db : Database) (v : IsValid db) (id booking event : Text) (ids : List Text)
    (seconds now : ℕ) (fresh : (r : Reservation) → In r db.reservations → has_id id r ≡ false)
    (free : (s : Seat)
      → In s db.seats
      → is_chosen event ids s ≡ true
      → s.status ≡ SeatStatus.available) where
  abbrev new_row : Reservation
  new_row = new_reservation id booking event seconds now

  new_seat : Seat → Seat
  new_seat = change (is_chosen event ids) (hold id now)

  abbrev after : Database
  after = allocate id booking event ids seconds now db

  before_seat : (s' : Seat) → In s' after.seats → (s : Seat) × In s db.seats × (s' ≡ new_seat s)
  unfolding allocate new_seat
  before_seat s' h = update-In (is_chosen event ids) (hold id now) db.seats s' h

  new_seat-key :
      (s : Seat) → ((new_seat s).event_id ≡ s.event_id) × ((new_seat s).seat_id ≡ s.seat_id)
  unfolding new_seat
  new_seat-key s = ground arith

  -- An item is of the new reservation, for a chosen seat, or an item before.
  item_cases :
      (i : ReservationItem)
      → In i after.reservation_items
      → ((s : Seat) × In s db.seats
          × (is_chosen event ids s ≡ true)
          × (i ≡ new_item id event now s))
        ⊎ In i db.reservation_items
  unfolding allocate
  item_cases i h =
      let chosen = select (is_chosen event ids) db.seats in
      elim (append-In (map (new_item id event now) chosen) db.reservation_items i h) [
        | inl k ↦
            let (s, is, e) = map-In (new_item id event now) chosen i k in
            let (is', c) = select-In (is_chosen event ids) db.seats s is in inl (s, is', c, e)
        | inr k ↦ inr k
      ]

  row_cases : (r : Reservation) → In r after.reservations → (r ≡ new_row) ⊎ In r db.reservations
  unfolding allocate
  row_cases r h = h

  old_row : (r : Reservation) → In r db.reservations → In r after.reservations
  unfolding allocate
  old_row r h = inr h

  old_item : (i : ReservationItem) → In i db.reservation_items → In i after.reservation_items
  unfolding allocate
  old_item i h =
      In-append_right (map (new_item id event now) (select (is_chosen event ids) db.seats))
        db.reservation_items i h

  chosen_item :
      (s : Seat)
      → In s db.seats
      → is_chosen event ids s ≡ true
      → In (new_item id event now s) after.reservation_items
  unfolding allocate
  chosen_item s is h =
      let chosen = select (is_chosen event ids) db.seats in
      In-append_left (map (new_item id event now) chosen) db.reservation_items
        (new_item id event now s)
        (In-map (new_item id event now) chosen s (In-select (is_chosen event ids) db.seats s is h))

  old_row-id : (r : Reservation) → In r db.reservations → r.reservation_id ≡ id → false ≡ true
  old_row-id r ir e = sym (fresh r ir) ∙ (text_eq_iff r.reservation_id id).1 e

  old_item-id :
      (i : ReservationItem) → In i db.reservation_items → i.reservation_id ≡ id → false ≡ true
  old_item-id i ii e = let (r, ir, f) = v.known i ii in old_row-id r ir (sym f ∙ e)

  chosen-event_id : (z : Seat) → is_chosen event ids z ≡ true → z.event_id ≡ event
  chosen-event_id z h = ground (arith, text_eq_iff z.event_id event)

  chosen_same :
      (s z : Seat)
      → s.event_id ≡ event
      → s.seat_id ≡ z.seat_id
      → is_chosen event ids z ≡ true
      → is_chosen event ids s ≡ true
  chosen_same s z a b h = rw (a ∙ sym (chosen-event_id z h), b) h

  new_seat-chosen :
      (s : Seat)
      → is_chosen event ids s ≡ true
      → ((new_seat s).status ≡ SeatStatus.held) × ((new_seat s).current_reservation_id ≡ some id)
  unfolding new_seat
  new_seat-chosen s h = ground arith

  new_seat-kept : (s : Seat) → is_chosen event ids s ≡ false → new_seat s ≡ s
  unfolding new_seat
  new_seat-kept s h = ground arith

  allocate-Holds :
      (i : ReservationItem) (r : Reservation) (s : Seat)
      → In i after.reservation_items
      → In r after.reservations
      → In s db.seats
      → Joins i r s
      → let s' = new_seat s in Holds r.status r.reservation_id s'.status s'.current_reservation_id
  allocate-Holds i r s ii ir is j = elim (item_cases i ii) [
    | inl (z, iz, c, e) ↦ elim (row_cases r ir) [
      | inl k ↦
          let h =
            chosen_same s z (sym j.of_event ∙ ap (λ x. x.event_id) e)
              (sym j.of_seat ∙ ap (λ x. x.seat_id) e) c in
          ground (arith, new_seat-chosen s h)
      | inr k ↦ absurd (cc (old_row-id r k (sym j.of_reservation ∙ ap (λ x. x.reservation_id) e)))
    ]
    | inr old ↦ elim (row_cases r ir) [
      | inl k ↦ absurd (cc (old_item-id i old (j.of_reservation ∙ ap (λ x. x.reservation_id) k)))
      | inr k ↦
          let before = v.holds i r s old k is j in
          elim (Bool-cases (is_chosen event ids s)) [
            | inl h ↦
                Holds-free r.status r.reservation_id s.current_reservation_id
                  (new_seat s).current_reservation_id (new_seat s).status
                  (subst (λ w. Holds r.status r.reservation_id w s.current_reservation_id)
                    (free s is h) before)
            | inr h ↦ rw (new_seat-kept s h) before
          ]
    ]
  ]

  -- An item of a live reservation stands for no chosen seat.
  old_seat :
      (i : ReservationItem) (p : Reservation) (z : Seat)
      → In i db.reservation_items
      → In p db.reservations
      → In z db.seats
      → Joins i p z
      → is_chosen event ids z ≡ true
      → is_live p ≡ true
      → false ≡ true
  old_seat i p z ii ip iz j h l = ground (arith, v.holds i p z ii ip iz j, free z iz h)

  -- The new reservation and another live one share no seat.
  apart :
      (i j : ReservationItem) (p : Reservation)
      → In i after.reservation_items
      → In j after.reservation_items
      → In p db.reservations
      → i.reservation_id ≡ id
      → j.reservation_id ≡ p.reservation_id
      → i.event_id ≡ j.event_id
      → i.seat_id ≡ j.seat_id
      → is_live p ≡ true
      → false ≡ true
  apart i j p ii ij ip a b c d l = elim (item_cases i ii) [
    | inl (z, iz, h, e) ↦ elim (item_cases j ij) [
      | inl (y, iy, k, f) ↦ old_row-id p ip (sym b ∙ ap (λ x. x.reservation_id) f)
      | inr k ↦
          old_seat j p z k ip iz
            (record {
              of_reservation = b;
              of_event = sym c ∙ ap (λ x. x.event_id) e ∙ sym (chosen-event_id z h);
              of_seat = sym d ∙ ap (λ x. x.seat_id) e;
            })
            h l
    ]
    | inr k ↦ old_item-id i k a
  ]

  old_of :
      (i : ReservationItem) (r : Reservation)
      → In i after.reservation_items
      → In r db.reservations
      → i.reservation_id ≡ r.reservation_id
      → In i db.reservation_items
  old_of i r ii ir a = elim (item_cases i ii) [
    | inl (z, iz, h, e) ↦ absurd (cc (old_row-id r ir (sym a ∙ ap (λ x. x.reservation_id) e)))
    | inr k ↦ k
  ]

  reserved_after :
      (s : Seat) (o : Text)
      → is_reserved db.reservation_items o s ≡ true
      → is_reserved after.reservation_items o s ≡ true
  reserved_after s o h =
      let (i, k, a, b, c) = is_reserved-In db.reservation_items o s h in
      In-is_reserved after.reservation_items o s i (old_item i k) a b c

  abbrev kept_backer : (s : Seat) (w : ReservationStatus) → Backer db s w → Backer after s w
  kept_backer s w b = record {
    row = b.row;
    stored = old_row b.row b.stored;
    in_status = b.in_status;
    reserves = reserved_after s b.row.reservation_id b.reserves;
  }

  kept-Backed :
      (s : Seat) (w : SeatStatus)
      → Backed db.reservations db.reservation_items s w
      → Backed after.reservations after.reservation_items s w
  kept-Backed s SeatStatus.available b = b
  kept-Backed s SeatStatus.held (b, e) = (kept_backer s ReservationStatus.active b, e)
  kept-Backed s SeatStatus.sold (b, e) = (kept_backer s ReservationStatus.confirmed b, e)
  kept-Backed s SeatStatus.blocked b = b

  new_row-stored : In new_row after.reservations
  unfolding allocate
  new_row-stored = inl refl

  new-Backed :
      (s : Seat)
      → In s db.seats
      → is_chosen event ids s ≡ true
      → Backed after.reservations after.reservation_items (new_seat s) (new_seat s).status
  new-Backed s is h =
      let (e, k) = new_seat-chosen s h in
      let (a, b) = new_seat-key s in
      let backer : Backer after (new_seat s) ReservationStatus.active = record {
        row = new_row;
        stored = new_row-stored;
        in_status = refl;
        reserves =
            In-is_reserved after.reservation_items id (new_seat s) (new_item id event now s)
              (chosen_item s is h) refl (sym (a ∙ chosen-event_id s h)) (sym b);
      } in
      subst (Backed after.reservations after.reservation_items (new_seat s)) (sym e) (backer, k)

  allocate-Backed :
      (s : Seat)
      → In s db.seats
      → Backed after.reservations after.reservation_items (new_seat s) (new_seat s).status
  allocate-Backed s is = elim (Bool-cases (is_chosen event ids s)) [
    | inl h ↦ new-Backed s is h
    | inr h ↦
        subst (λ x. Backed after.reservations after.reservation_items x x.status)
          (sym (new_seat-kept s h)) (kept-Backed s s.status (v.backed s is))
  ]

  allocate_disjoint :
      (i j : ReservationItem) (r p : Reservation)
      → In i after.reservation_items
      → In j after.reservation_items
      → In r after.reservations
      → In p after.reservations
      → i.reservation_id ≡ r.reservation_id
      → j.reservation_id ≡ p.reservation_id
      → i.event_id ≡ j.event_id
      → i.seat_id ≡ j.seat_id
      → is_live r ≡ true
      → is_live p ≡ true
      → r.reservation_id ≡ p.reservation_id
  allocate_disjoint i j r p ii ij ir ip a b c d lr lp = elim (row_cases r ir) [
    | inl e ↦ elim (row_cases p ip) [
      | inl f ↦ ap (λ x. x.reservation_id) (e ∙ sym f)
      | inr kp ↦ absurd (cc (apart i j p ii ij kp (a ∙ ap (λ x. x.reservation_id) e) b c d lp))
    ]
    | inr kr ↦ elim (row_cases p ip) [
      | inl f ↦
          absurd (cc (apart j i r ij ii kr (b ∙ ap (λ x. x.reservation_id) f) a (sym c) (sym d) lr))
      | inr kp ↦ v.disjoint i j r p (old_of i r ii kr a) (old_of j p ij kp b) kr kp a b c d lr lp
    ]
  ]

  allocate_known :
      (i : ReservationItem)
      → In i after.reservation_items
      → (r : Reservation) × In r after.reservations × (i.reservation_id ≡ r.reservation_id)
  allocate_known i ii = elim (item_cases i ii) [
    | inl (z, iz, h, e) ↦ (new_row, new_row-stored, ap (λ x. x.reservation_id) e)
    | inr k ↦ let (r, ir, e) = v.known i k in (r, old_row r ir, e)
  ]

  pub allocate-IsValid : IsValid after
  allocate-IsValid = record {
    holds = λ i r s' ii ir is' j.
        let (s, is, es) = before_seat s' is' in
        let (ke, ks) = new_seat-key s in
        subst (λ y. Holds r.status r.reservation_id y.status y.current_reservation_id) (sym es)
          (allocate-Holds i r s ii ir is (record {
            of_reservation = j.of_reservation;
            of_event = j.of_event ∙ ap (λ x. x.event_id) es ∙ ke;
            of_seat = j.of_seat ∙ ap (λ x. x.seat_id) es ∙ ks;
          }));
    disjoint = allocate_disjoint;
    backed = λ s' is'.
        let (s, is, es) = before_seat s' is' in
        subst (λ x. Backed after.reservations after.reservation_items x x.status) (sym es)
          (allocate-Backed s is);
    known = allocate_known;
  }
