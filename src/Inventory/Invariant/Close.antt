-- ===== src/Inventory/Invariant/Close.antt =====
-- Confirming, releasing or expiring a hold keeps the invariant.
use event_ticketing_soa.Common.{
  ℕ, Bool, true, false, ◌≡◌, none, some, arith, refl, inl, inr, Bool-cases, sym, ◌∙◌, ap, subst,
}
use event_ticketing_soa.Common.Rows.{In, change, update-In, In-update}
use event_ticketing_soa.Common.Text.{Text, text_eq, text_eq_iff, text_eq_refl}
use event_ticketing_soa.Inventory.Types.{
  Seat, SeatStatus, Reservation, ReservationStatus, ReservationItem,
}
use event_ticketing_soa.Inventory.Tables.{Database, is_reserved, has_id}
use event_ticketing_soa.Inventory.Commands.{close, moved, closed}
use event_ticketing_soa.Inventory.Invariant.Defs.{
  IsValid, Holds, Backed, Backer, is_live, is_reserved-In, In-is_reserved, is_reserved_same,
}

-- The statuses that a hold may end in, with those of its seats.
abbrev pub closes : ReservationStatus → SeatStatus → Bool
closes ReservationStatus.confirmed SeatStatus.sold = true
closes ReservationStatus.released SeatStatus.available = true
closes ReservationStatus.expired SeatStatus.available = true
closes _ _ = false

module _ (db : Database) (v : IsValid db) (q : Reservation) (stored : In q db.reservations)
    (active : q.status ≡ ReservationStatus.active) (t : ReservationStatus) (u : SeatStatus)
    (ends : closes t u ≡ true) (now : ℕ) where
  new_row : Reservation → Reservation
  new_row = change (has_id q.reservation_id) (closed t now)

  new_seat : Seat → Seat
  new_seat = change (is_reserved db.reservation_items q.reservation_id) (moved u now)

  close-Holds :
      (i : ReservationItem) (r : Reservation) (s : Seat)
      → In i db.reservation_items
      → In r db.reservations
      → In s db.seats
      → i.reservation_id ≡ r.reservation_id
      → i.event_id ≡ s.event_id
      → i.seat_id ≡ s.seat_id
      → let r' = new_row r in
        let s' = new_seat s in Holds r'.status r'.reservation_id s'.status s'.current_reservation_id
  unfolding new_row new_seat
  close-Holds i r s ii ir is a b c =
      let before =
        v.holds i r s ii ir is (record { of_reservation = a; of_event = b; of_seat = c }) in
      elim (Bool-cases (text_eq r.reservation_id q.reservation_id)) [
        | inl h ↦ ground (
          arith,
          ends,
          text_eq_iff r.reservation_id q.reservation_id,
          In-is_reserved db.reservation_items q.reservation_id s i ii,
        )
        | inr h ↦ elim (Bool-cases (is_reserved db.reservation_items q.reservation_id s)) [
          | inl k ↦
              let (j, ij, d, e, f) = is_reserved-In db.reservation_items q.reservation_id s k in
              ground (
                arith,
                text_eq_iff r.reservation_id q.reservation_id,
                v.disjoint i j r q ii ij ir stored a d,
              )
          | inr k ↦ ground arith
        ]
      ]

  new_row-reservation_id : (r : Reservation) → (new_row r).reservation_id ≡ r.reservation_id
  unfolding new_row
  new_row-reservation_id r = ground arith

  live_before :
      (r : Reservation)
      → In r db.reservations
      → is_live (new_row r) ≡ true
      → (p : Reservation) × In p db.reservations
        × (is_live p ≡ true)
        × (p.reservation_id ≡ r.reservation_id)
  unfolding new_row
  live_before r ir h = elim (Bool-cases (text_eq r.reservation_id q.reservation_id)) [
    | inl k ↦ (
      q,
      stored,
      ground (arith, active),
      ground (arith, text_eq_iff r.reservation_id q.reservation_id),
    )
    | inr k ↦ (r, ir, ground arith, refl)
  ]

  close_disjoint :
      (i j : ReservationItem) (r p : Reservation)
      → In i db.reservation_items
      → In j db.reservation_items
      → In r db.reservations
      → In p db.reservations
      → i.reservation_id ≡ r.reservation_id
      → j.reservation_id ≡ p.reservation_id
      → i.event_id ≡ j.event_id
      → i.seat_id ≡ j.seat_id
      → is_live (new_row r) ≡ true
      → is_live (new_row p) ≡ true
      → r.reservation_id ≡ p.reservation_id
  close_disjoint i j r p ii ij ir ip a b c d e f =
      let (r0, ir0, lr, er) = live_before r ir e in
      let (p0, ip0, lp, ep) = live_before p ip f in
      sym er ∙ v.disjoint i j r0 p0 ii ij ir0 ip0 (a ∙ sym er) (b ∙ sym ep) c d lr lp ∙ ep

  abbrev after : Database
  after = close q.reservation_id t u now db

  In-new_row : (r : Reservation) → In r db.reservations → In (new_row r) after.reservations
  unfolding close new_row
  In-new_row r ir = In-update (has_id q.reservation_id) (closed t now) db.reservations r ir

  new_seat-key :
      (s : Seat) → ((new_seat s).event_id ≡ s.event_id) × ((new_seat s).seat_id ≡ s.seat_id)
  unfolding new_seat
  new_seat-key s = ground arith

  after-items : after.reservation_items ≡ db.reservation_items
  unfolding close
  after-items = refl

  reserves_after :
      (s : Seat) (id : Text)
      → is_reserved db.reservation_items id s ≡ true
      → is_reserved after.reservation_items id (new_seat s) ≡ true
  reserves_after s id h =
      let (e, f) = new_seat-key s in
      rw after-items (is_reserved_same db.reservation_items id s (new_seat s) e f h)

  -- A row that is not closed still backs its seat.
  kept_backer :
      (s : Seat) (status : ReservationStatus) (b : Backer db s status)
      → text_eq b.row.reservation_id q.reservation_id ≡ false
      → (b' : Backer after (new_seat s) status) × (b'.row.reservation_id ≡ b.row.reservation_id)
  unfolding new_row
  kept_backer s status b h = (
    record {
      row = new_row b.row;
      stored = In-new_row b.row b.stored;
      in_status = ground (arith, b.in_status);
      reserves =
          rw (new_row-reservation_id b.row) (reserves_after s b.row.reservation_id b.reserves);
    },
    new_row-reservation_id b.row,
  )

  -- The row that is confirmed backs the seats of the hold.
  sold_backer :
      (s : Seat)
      → t ≡ ReservationStatus.confirmed
      → is_reserved db.reservation_items q.reservation_id s ≡ true
      → Backer after (new_seat s) ReservationStatus.confirmed
  unfolding new_row
  sold_backer s e h = record {
    row = new_row q;
    stored = In-new_row q stored;
    in_status = ground (arith, text_eq_refl q.reservation_id);
    reserves = rw (new_row-reservation_id q) (reserves_after s q.reservation_id h);
  }

  unmoved :
      (s : Seat) (status : ReservationStatus) (b : Backer db s status)
      → is_reserved db.reservation_items q.reservation_id s ≡ false
      → text_eq b.row.reservation_id q.reservation_id ≡ false
  unmoved s status b h = elim (Bool-cases (text_eq b.row.reservation_id q.reservation_id)) [
    | inl k ↦ absurd (cc (b.reserves, (text_eq_iff b.row.reservation_id q.reservation_id).0 k))
    | inr k ↦ k
  ]

  -- A seat of the hold, by the status that it gets.
  moved-Backed :
      (s : Seat) (w : SeatStatus)
      → closes t w ≡ true
      → is_reserved db.reservation_items q.reservation_id s ≡ true
      → (new_seat s).current_reservation_id ≡ none
      → Backed after.reservations after.reservation_items (new_seat s) w
  moved-Backed s SeatStatus.available e h k = k
  moved-Backed s SeatStatus.held e h k = absurd (ground arith)
  moved-Backed s SeatStatus.sold e h k = (sold_backer s (ground arith) h, k)
  moved-Backed s SeatStatus.blocked e h k = k

  -- Any other seat.
  kept-Backed :
      (s : Seat) (w : SeatStatus)
      → Backed db.reservations db.reservation_items s w
      → is_reserved db.reservation_items q.reservation_id s ≡ false
      → (new_seat s).current_reservation_id ≡ s.current_reservation_id
      → Backed after.reservations after.reservation_items (new_seat s) w
  kept-Backed s SeatStatus.available b h k = k ∙ b
  kept-Backed s SeatStatus.held (b, e) h k =
      let (b', f) =
        kept_backer s ReservationStatus.active b (unmoved s ReservationStatus.active b h) in
      (b', k ∙ e ∙ ap some (sym f))
  kept-Backed s SeatStatus.sold (b, e) h k = (
    (kept_backer s ReservationStatus.confirmed b (unmoved s ReservationStatus.confirmed b h)).0,
    k ∙ e,
  )
  kept-Backed s SeatStatus.blocked b h k = k ∙ b

  new_seat-moved :
      (s : Seat)
      → is_reserved db.reservation_items q.reservation_id s ≡ true
      → ((new_seat s).status ≡ u) × ((new_seat s).current_reservation_id ≡ none)
  unfolding new_seat
  new_seat-moved s h = ground arith

  new_seat-kept :
      (s : Seat)
      → is_reserved db.reservation_items q.reservation_id s ≡ false
      → ((new_seat s).status ≡ s.status)
        × ((new_seat s).current_reservation_id ≡ s.current_reservation_id)
  unfolding new_seat
  new_seat-kept s h = ground arith

  close-Backed :
      (s : Seat)
      → In s db.seats
      → Backed after.reservations after.reservation_items (new_seat s) (new_seat s).status
  close-Backed s is = elim (Bool-cases (is_reserved db.reservation_items q.reservation_id s)) [
    | inl h ↦
        let (e, k) = new_seat-moved s h in
        subst (Backed after.reservations after.reservation_items (new_seat s)) (sym e)
          (moved-Backed s u ends h k)
    | inr h ↦
        let (e, k) = new_seat-kept s h in
        subst (Backed after.reservations after.reservation_items (new_seat s)) (sym e)
          (kept-Backed s s.status (v.backed s is) h k)
  ]

  before_row :
      (r' : Reservation)
      → In r' after.reservations
      → (r : Reservation) × In r db.reservations × (r' ≡ new_row r)
  unfolding close new_row
  before_row r' h = update-In (has_id q.reservation_id) (closed t now) db.reservations r' h

  before_seat : (s' : Seat) → In s' after.seats → (s : Seat) × In s db.seats × (s' ≡ new_seat s)
  unfolding close new_seat
  before_seat s' h =
      update-In (is_reserved db.reservation_items q.reservation_id) (moved u now) db.seats s' h

  before_item : (i : ReservationItem) → In i after.reservation_items → In i db.reservation_items
  unfolding close
  before_item i h = h

  same_row :
      (i : ReservationItem) (r r' : Reservation)
      → r' ≡ new_row r
      → i.reservation_id ≡ r'.reservation_id
      → i.reservation_id ≡ r.reservation_id
  same_row i r r' e h = h ∙ ap (λ x. x.reservation_id) e ∙ new_row-reservation_id r

  -- Ending an active reservation, with its seats, keeps the invariant.
  pub close-IsValid : IsValid after
  close-IsValid = record {
    holds = λ i r' s' ii ir' is' j.
        let (r, ir, er) = before_row r' ir' in
        let (s, is, es) = before_seat s' is' in
        let (ke, ks) = new_seat-key s in
        subst (λ x. Holds x.status x.reservation_id s'.status s'.current_reservation_id) (sym er)
          (subst
            (λ y.
              Holds (new_row r).status (new_row r).reservation_id y.status y.current_reservation_id)
            (sym es)
            (close-Holds i r s (before_item i ii) ir is (same_row i r r' er j.of_reservation)
              (j.of_event ∙ ap (λ x. x.event_id) es ∙ ke)
              (j.of_seat ∙ ap (λ x. x.seat_id) es ∙ ks)));
    disjoint = λ i j r' p' ii ij ir' ip' a b c d e f.
        let (r, ir, er) = before_row r' ir' in
        let (p, ip, ep) = before_row p' ip' in
        ap (λ x. x.reservation_id) er
        ∙ new_row-reservation_id r
        ∙ close_disjoint i j r p (before_item i ii) (before_item j ij) ir ip (same_row i r r' er a)
            (same_row j p p' ep b) c d (subst (λ x. is_live x ≡ true) er e)
            (subst (λ x. is_live x ≡ true) ep f)
        ∙ sym (new_row-reservation_id p)
        ∙ ap (λ x. x.reservation_id) (sym ep);
    backed = λ s' is'.
        let (s, is, es) = before_seat s' is' in
        subst (λ x. Backed after.reservations after.reservation_items x x.status) (sym es)
          (close-Backed s is);
    known = λ i ii.
        let (r, ir, e) = v.known i (before_item i ii) in
        (new_row r, In-new_row r ir, e ∙ sym (new_row-reservation_id r));
  }
