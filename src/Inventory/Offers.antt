-- ===== src/Inventory/Offers.antt =====
-- `check_availability`: the answer, and what it means for the seats.
use event_ticketing_soa.Common.{
  ℕ, Bool, true, false, ◌≡◌, not, List, [], ◌∷◌, map, arith, refl, inl, inr, ◌↔◌, Bool-cases,
  Result-cases, ok, err, sym, subst,
}
use event_ticketing_soa.Common.Rows.{In, select, select-none, In-select, select-In, In-map, map-In}
use event_ticketing_soa.Common.Text.{Text, text_eq, text_eq_iff, mem_text}
use event_ticketing_soa.Inventory.Types.{Seat, SeatStatus}
use event_ticketing_soa.Inventory.Rules.{
  RequestContext, validated, validate_identifier, normalize_seat_ids, sort_unique,
}
use event_ticketing_soa.Inventory.Tables.{Database, lock_seats, is_chosen}
use event_ticketing_soa.Inventory.Commands.{
  AvailabilityResult, availability, is_available, is_nil, check_availability, missing_seats,
  check_missing,
}
use event_ticketing_soa.Inventory.SeatIds.{sort_unique-In}

mem_text-In : (t : Text) (xs : List Text) → (mem_text t xs ≡ true) ↔ In t xs
unfolding mem_text
mem_text-In t [] = (λ h. absurd (cc), λ h. absurd (cc))
mem_text-In t (x ∷ xs) =
    let (f, g) = mem_text-In t xs in
    let (a, b) = text_eq_iff t x in
    (
      λ h. elim (Bool-cases (text_eq t x)) [ inl k ↦ inl (a k) | inr k ↦ inr (f (ground arith)) ],
      λ h. elim h [ inl k ↦ let e = b k in ground arith | inr k ↦ let e = g k in ground arith ],
    )

select-empty :
    {A : Type 0} (p : A → Bool) (xs : List A) → ((x : A) → In x xs → p x ≡ false) → select p xs ≡ []
unfolding select
select-empty p [] h = refl
select-empty p (x ∷ xs) h =
    let rest = select-empty p xs (λ y i. h y (inr i)) in
    let here = h x (inl refl) in rw (here, rest)

-- The event has this seat for sale.
pub record Offered (db : Database) (event_id seat_id : Text) : Type 0 where
  pub seat : Seat
  pub stored : In seat db.seats
  pub of_event : seat.event_id ≡ event_id
  pub of_seat : seat.seat_id ≡ seat_id
  pub available : seat.status ≡ SeatStatus.available

nil_of : {A : Type 0} (xs : List A) → is_nil xs ≡ true → xs ≡ []
nil_of [] h = refl
nil_of (x ∷ xs) h = absurd (cc)

module _ (db : Database) (event : Text) (ids : List Text) where
  free_ids : List Text
  free_ids =
      sort_unique
        (map (λ s. s.seat_id) (select is_available (select (is_chosen event ids) db.seats)))

  free-Offered : (id : Text) → In id free_ids → Offered db event id
  unfolding free_ids
  free-Offered id i =
      let seats = select (is_chosen event ids) db.seats in
      let (s, k, e) =
        map-In (λ s. s.seat_id) (select is_available seats) id
          ((sort_unique-In (map (λ s. s.seat_id) (select is_available seats)) id).0 i) in
      let (k', a) = select-In is_available seats s k in
      let (k'', c) = select-In (is_chosen event ids) db.seats s k' in
      record {
        seat = s;
        stored = k'';
        of_event = ground (arith, text_eq_iff s.event_id event);
        of_seat = sym e;
        available = ground arith;
      }

  Offered-free : (id : Text) → In id ids → Offered db event id → In id free_ids
  unfolding free_ids
  Offered-free id i o =
      let seats = select (is_chosen event ids) db.seats in
      let s = o.seat in
      let m = (mem_text-In s.seat_id ids).1 (subst (λ x. In x ids) (sym o.of_seat) i) in
      let e = (text_eq_iff s.event_id event).1 o.of_event in
      let k = In-select (is_chosen event ids) db.seats s o.stored (rw (e, m)) in
      let k' = In-select is_available seats s k (rw (o.available)) in
      (sort_unique-In (map (λ s. s.seat_id) (select is_available seats)) id).1 (
        subst (λ x. In x (map (λ s. s.seat_id) (select is_available seats))) o.of_seat
          (In-map (λ s. s.seat_id) (select is_available seats) s k'))

  available_iff :
      (now : ℕ)
      → ((availability event ids now (select (is_chosen event ids) db.seats)).available ≡ true)
        ↔ ((id : Text) → In id ids → Offered db event id)
  unfolding availability free_ids
  available_iff now =
      let taken = select (λ id. not (mem_text id free_ids)) ids in
      (
        λ h id i.
            let e : taken ≡ [] = nil_of taken h in
            let k = select-none (λ id. not (mem_text id free_ids)) ids id e i in
            free-Offered id ((mem_text-In id free_ids).0 (ground arith)),
        λ h.
            let e : taken ≡ [] =
              select-empty (λ id. not (mem_text id free_ids)) ids
                λ id i. let m = (mem_text-In id free_ids).1 (Offered-free id i (h id i)) in rw m in
            rw e,
      )

-- The query writes nothing, and it says that the seats are available exactly when each of them is a
-- seat of the event that is for sale.
pub check_availability-Offered :
    (context : RequestContext) (now : ℕ) (event_id event : Text) (seat_ids ids : List Text)
    (db after : Database) (r : AvailabilityResult)
    → validate_identifier event_id "eventId" ≡ ok event
    → normalize_seat_ids seat_ids ≡ ok ids
    → check_availability context now event_id seat_ids db ≡ (ok r, after)
    → (after ≡ db) × ((r.available ≡ true) ↔ ((id : Text) → In id ids → Offered db event id))
unfolding check_availability lock_seats
check_availability-Offered context now event_id event seat_ids ids db after r i j h =
    let seats = select (is_chosen event ids) db.seats in
    elim (Result-cases (validated false context)) [
      | inr (e, k) ↦
          absurd
            (let l : check_availability context now event_id seat_ids db ≡ (err e, db) = rw k in cc)
      | inl (o, k) ↦ elim (Result-cases (check_missing (missing_seats ids seats))) [
        | inr (e, m) ↦ absurd (
            let l : check_availability context now event_id seat_ids db ≡ (err e, db) =
              rw (k, i, j, m) in
            cc)
        | inl (o', m) ↦
            let l : check_availability context now event_id seat_ids db
                ≡ (ok (availability event ids now seats), db) =
              rw (k, i, j, m) in
            let e : after ≡ db = cc in
            let f : availability event ids now seats ≡ r = cc in
            (
              e,
              subst (λ x. (x.available ≡ true) ↔ ((id : Text) → In id ids → Offered db event id)) f
                  (available_iff db event ids now),
            )
      ]
    ]
