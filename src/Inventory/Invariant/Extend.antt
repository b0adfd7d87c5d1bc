-- ===== src/Inventory/Invariant/Extend.antt =====
-- An extension changes no status and no identifier, so it keeps the invariant.
use event_ticketing_soa.Common.{ℕ, true, ◌≡◌, some, arith, sym, ◌∙◌, ap, subst}
use event_ticketing_soa.Common.Rows.{In, change, update-In, In-update}
use event_ticketing_soa.Common.Text.{Text}
use event_ticketing_soa.Inventory.Types.{Seat, SeatStatus, Reservation, ReservationStatus}
use event_ticketing_soa.Inventory.Tables.{Database, has_id, is_reserved}
use event_ticketing_soa.Inventory.Commands.{extend, extended}
use event_ticketing_soa.Inventory.Invariant.Defs.{IsValid, Holds, Backed, Backer, is_live}

module _ (db : Database) (v : IsValid db) (id : Text) (seconds now : ℕ) where
  new_row : Reservation → Reservation
  new_row = change (has_id id) (extended seconds now)

  new_row-same :
      (r : Reservation)
      → ((new_row r).reservation_id ≡ r.reservation_id) × ((new_row r).status ≡ r.status)
  unfolding new_row
  new_row-same r = ground arith

  abbrev after : Database
  after = extend id seconds now db

  before_row :
      (r' : Reservation)
      → In r' after.reservations
      → (r : Reservation) × In r db.reservations
        × (r'.reservation_id ≡ r.reservation_id)
        × (r'.status ≡ r.status)
  unfolding new_row
  before_row r' h =
      let (r, ir, e) = update-In (has_id id) (extended seconds now) db.reservations r' h in
      let (a, b) = new_row-same r in
      (r, ir, ap (λ x. x.reservation_id) e ∙ a, ap (λ x. x.status) e ∙ b)

  after_row :
      (r : Reservation)
      → In r db.reservations
      → (r' : Reservation) × In r' after.reservations
        × (r'.reservation_id ≡ r.reservation_id)
        × (r'.status ≡ r.status)
  unfolding new_row
  after_row r ir =
      let (a, b) = new_row-same r in
      (new_row r, In-update (has_id id) (extended seconds now) db.reservations r ir, a, b)

  is_live_same : (r r' : Reservation) → r'.status ≡ r.status → is_live r' ≡ true → is_live r ≡ true
  is_live_same r r' e h = ground arith

  abbrev kept_backer :
      (s : Seat) (w : ReservationStatus) (b : Backer db s w)
      → (b' : Backer after s w) × (b'.row.reservation_id ≡ b.row.reservation_id)
  kept_backer s w b =
      let (r', ir', a, e) = after_row b.row b.stored in
      (
        record {
          row = r';
          stored = ir';
          in_status = e ∙ b.in_status;
          reserves = subst (λ x. is_reserved db.reservation_items x s ≡ true) (sym a) b.reserves;
        },
        a,
      )

  kept-Backed :
      (s : Seat) (w : SeatStatus)
      → Backed db.reservations db.reservation_items s w
      → Backed after.reservations after.reservation_items s w
  kept-Backed s SeatStatus.available b = b
  kept-Backed s SeatStatus.held (b, e) =
      let (b', a) = kept_backer s ReservationStatus.active b in (b', e ∙ ap some (sym a))
  kept-Backed s SeatStatus.sold (b, e) = ((kept_backer s ReservationStatus.confirmed b).0, e)
  kept-Backed s SeatStatus.blocked b = b

  pub extend-IsValid : IsValid after
  extend-IsValid = record {
    holds = λ i r' s ii ir' is j.
        let (r, ir, a, b) = before_row r' ir' in
        subst (λ w. Holds w r'.reservation_id s.status s.current_reservation_id) (sym b)
          (subst (λ x. Holds r.status x s.status s.current_reservation_id) (sym a)
            (v.holds i r s ii ir is (record {
              of_reservation = j.of_reservation ∙ a;
              of_event = j.of_event;
              of_seat = j.of_seat;
            })));
    disjoint = λ i j r' p' ii ij ir' ip' a b c d lr lp.
        let (r, ir, er, sr) = before_row r' ir' in
        let (p, ip, ep, sp) = before_row p' ip' in
        er
        ∙ v.disjoint i j r p ii ij ir ip (a ∙ er) (b ∙ ep) c d (is_live_same r r' sr lr)
            (is_live_same p p' sp lp)
        ∙ sym ep;
    backed = λ s is. kept-Backed s s.status (v.backed s is);
    known = λ i ii.
        let (r, ir, e) = v.known i ii in
        let (r', ir', a, _) = after_row r ir in (r', ir', e ∙ sym a);
  }
