-- ===== src/Inventory/Invariant/Settle.antt =====
-- `confirm_seats`, `release_seats` and `extend_reservation` keep the invariant.
use event_ticketing_soa.Common.{ℕ, arith, refl, inl, inr, Result-cases, subst, Leaves}
use event_ticketing_soa.Common.Text.{Text, codes}
use event_ticketing_soa.Inventory.Types.{SeatStatus, ReservationStatus}
use event_ticketing_soa.Inventory.Rules.{
  RequestContext, validate_identifier, validate_extension_seconds,
}
use event_ticketing_soa.Inventory.Tables.{Database, Scope}
use event_ticketing_soa.Inventory.Payload.{Platform, RequestBody}
use event_ticketing_soa.Inventory.Replay.{Settings, Call, new_call}
use event_ticketing_soa.Inventory.Commands.{
  confirm_row, release_row, extend_row, extend, extended, on_reservation, required_key,
  confirm_seats, release_seats, extend_reservation,
}
use event_ticketing_soa.Inventory.Invariant.Defs.{IsValid}
use event_ticketing_soa.Inventory.Invariant.Extend.{extend-IsValid}
use event_ticketing_soa.Inventory.Invariant.Keeps.{
  Keeps, close_reservation-Keeps, reply_with_row-Keeps, confirm_row-Leaves, release_row-Leaves,
  extend_row-Leaves, on_reservation-Leaves,
}

module _ (c : Call) (id : Text) (db : Database) (v : IsValid db) where
  confirm_transaction : (n : ℕ) → Keeps (on_reservation c id (confirm_row c id n) db)
  confirm_transaction n = on_reservation-Leaves IsValid c id (confirm_row c id n) db v λ q iq e.
      subst (λ x. Keeps (confirm_row c x n q db)) e
        (confirm_row-Leaves IsValid c q db v n (reply_with_row-Keeps c q db v) λ a.
          close_reservation-Keeps c (codes "PAYMENT_CONFIRMED") ReservationStatus.confirmed
            SeatStatus.sold q db v iq a refl)

  release_transaction : (reason : Text) → Keeps (on_reservation c id (release_row c id reason) db)
  release_transaction reason =
      on_reservation-Leaves IsValid c id (release_row c id reason) db v λ q iq e.
        subst (λ x. Keeps (release_row c x reason q db)) e
          (release_row-Leaves IsValid c q db v reason (reply_with_row-Keeps c q db v) λ a.
            close_reservation-Keeps c reason ReservationStatus.released SeatStatus.available q db v
              iq a refl)

  extend_transaction : (n seconds : ℕ) → Keeps (on_reservation c id (extend_row c id n seconds) db)
  extend_transaction n seconds =
      on_reservation-Leaves IsValid c id (extend_row c id n seconds) db v λ q iq e.
        subst (λ x. Keeps (extend_row c x n seconds q db)) e
          (extend_row-Leaves IsValid c q db v n seconds (
            reply_with_row-Keeps c (extended seconds c.now q)
              (extend q.reservation_id seconds c.now db)
              (extend-IsValid db v q.reservation_id seconds c.now)))

module _ (P : Database → Type 0) (p : Platform) (settings : Settings) (context : RequestContext)
    (now : ℕ) (id : Text) (db : Database) (before : P db) where
  pub confirm_seats-Leaves :
      (n : ℕ)
      → ((c : Call) (x : Text) → Leaves P (on_reservation c x (confirm_row c x n) db))
      → Leaves P (confirm_seats p settings context now id n db)
  unfolding confirm_seats
  confirm_seats-Leaves n f = elim (Result-cases (validate_identifier id "reservationId")) [
    | inl (x, h) ↦ elim (Result-cases (required_key context.idempotency_key)) [
      | inl (key, k) ↦ ground (
        arith,
        before,
        f (new_call p settings Scope.confirm_seats key (RequestBody.confirm x n) now) x,
      )
      | inr (e, k) ↦ ground (arith, before)
    ]
    | inr (e, h) ↦ ground (arith, before)
  ]

  pub release_seats-Leaves :
      (reason : Text)
      → ((c : Call) (x y : Text) → Leaves P (on_reservation c x (release_row c x y) db))
      → Leaves P (release_seats p settings context now id reason db)
  unfolding release_seats
  release_seats-Leaves reason f = elim (Result-cases (validate_identifier id "reservationId")) [
    | inl (x, h) ↦ elim (Result-cases (validate_identifier reason "reasonCode")) [
      | inl (y, l) ↦ elim (Result-cases (required_key context.idempotency_key)) [
        | inl (key, k) ↦ ground (
          arith,
          before,
          f (new_call p settings Scope.release_seats key (RequestBody.release x y) now) x y,
        )
        | inr (e, k) ↦ ground (arith, before)
      ]
      | inr (e, l) ↦ ground (arith, before)
    ]
    | inr (e, h) ↦ ground (arith, before)
  ]

  pub extend_reservation-Leaves :
      (n seconds : ℕ)
      → ((c : Call) (x : Text) (t : ℕ) → Leaves P (on_reservation c x (extend_row c x n t) db))
      → Leaves P (extend_reservation p settings context now id n seconds db)
  unfolding extend_reservation
  extend_reservation-Leaves n seconds f =
      elim (Result-cases (validate_identifier id "reservationId")) [
        | inl (x, h) ↦
            elim (Result-cases
              (validate_extension_seconds seconds settings.max_extension_seconds)) [
                | inl (t, l) ↦ elim (Result-cases (required_key context.idempotency_key)) [
                  | inl (key, k) ↦ ground (
                    arith,
                    before,
                    f
                        (new_call p settings Scope.extend_reservation key (RequestBody.extend x n t)
                          now)
                        x t,
                  )
                  | inr (e, k) ↦ ground (arith, before)
                ]
                | inr (e, l) ↦ ground (arith, before)
              ]
        | inr (e, h) ↦ ground (arith, before)
      ]

module _ (p : Platform) (settings : Settings) (context : RequestContext) (now : ℕ) (id : Text)
    (db : Database) (v : IsValid db) where
  pub confirm_seats-IsValid : (n : ℕ) → Keeps (confirm_seats p settings context now id n db)
  confirm_seats-IsValid n =
      confirm_seats-Leaves IsValid p settings context now id db v n
        λ c x. confirm_transaction c x db v n

  pub release_seats-IsValid :
      (reason : Text) → Keeps (release_seats p settings context now id reason db)
  release_seats-IsValid reason =
      release_seats-Leaves IsValid p settings context now id db v reason
        λ c x. release_transaction c x db v

  pub extend_reservation-IsValid :
      (n seconds : ℕ) → Keeps (extend_reservation p settings context now id n seconds db)
  extend_reservation-IsValid n seconds =
      extend_reservation-Leaves IsValid p settings context now id db v n seconds
        λ c x t. extend_transaction c x db v n t
