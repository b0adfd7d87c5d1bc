-- ===== src/Inventory/Retry/Commands.antt =====
-- Confirming, releasing and extending again, with the key of the first call.
use event_ticketing_soa.Common.{
  ℕ, true, ◌≡◌, some, inl, inr, ◌⊎◌, Result-cases, ok, err, Ensures, sym, ◌∙◌, subst,
}
use event_ticketing_soa.Common.Text.{Text}
use event_ticketing_soa.Inventory.Types.{Reservation, ReservationView}
use event_ticketing_soa.Inventory.Errors.{SeatInventoryError}
use event_ticketing_soa.Inventory.Rules.{
  RequestContext, validated, validate_identifier, validate_extension_seconds,
}
use event_ticketing_soa.Inventory.Tables.{Database, Command, Scope}
use event_ticketing_soa.Inventory.Payload.{Platform, RequestBody}
use event_ticketing_soa.Inventory.Replay.{Settings, Call, new_call, store_record}
use event_ticketing_soa.Inventory.Commands.{
  confirm_row, release_row, extend_row, on_reservation, required_key, confirm_seats, release_seats,
  extend_reservation,
}
use event_ticketing_soa.Inventory.Retry.Remembers.{
  Remembers, store_record-Remembers, confirm_row-Ensures, release_row-Ensures, extend_row-Ensures,
  on_reservation-Remembers, Remembers-on_reservation,
}

-- A transaction on one reservation, whose command stores what it returns.
record Transaction : Type 0 where
  key : Text
  id : Text
  body : RequestBody
  row : Call → Reservation → Command ReservationView
  returns :
      (c : Call) (q : Reservation) (db : Database)
      → ((view : ReservationView) (after : Database) → Remembers c view (store_record c view after))
      → Ensures (Remembers c) (row c q db)

-- A command is refused before its transaction, or it is one, whose call has the time alone from it.
abbrev Opens : Platform → Settings → Scope → (ℕ → Command ReservationView) → Type 0
Opens p settings scope run =
    ((t : Transaction) × ((now : ℕ) (db : Database)
        → let c = new_call p settings scope t.key t.body now in
          run now db ≡ on_reservation c t.id (t.row c) db))
    ⊎ ((e : SeatInventoryError) × ((now : ℕ) (db : Database) → run now db ≡ (err e, db)))

-- The first call returns a view and stores it, so a second one returns it and writes nothing.
retried :
    (p : Platform) (settings : Settings) (scope : Scope) (run : ℕ → Command ReservationView)
    → ((t : ℕ) → p.fromisoformat (p.isoformat t) ≡ some t)
    → Opens p settings scope run
    → (now later : ℕ) (db after : Database) (view : ReservationView) → run now db ≡ (ok view, after)
    → run later after ≡ (ok view, after)
retried p settings scope run reads (inr (e, f)) now later db after view h =
    absurd (let k = sym (f now db) ∙ h in cc)
retried p settings scope run reads (inl (t, f)) now later db after view h =
    let c = new_call p settings scope t.key t.body now in
    let c' = new_call p settings scope t.key t.body later in
    let m : Remembers c view after = subst (Ensures (Remembers c)) (sym (f now db) ∙ h) (
      on_reservation-Remembers c t.id (t.row c)
        (λ q db'. t.returns c q db' (λ view' after'. store_record-Remembers c view' after' reads))
        db) in
    f later after
    ∙ Remembers-on_reservation c' t.id (t.row c') view after
        (record { payload = m.payload; stored = m.stored; reads = m.reads })

module _ (p : Platform) (settings : Settings) (context : RequestContext) (id : Text) where
  confirm_seats-Opens :
      (n : ℕ)
      → Opens p settings Scope.confirm_seats (λ now. confirm_seats p settings context now id n)
  unfolding confirm_seats
  confirm_seats-Opens n = elim (Result-cases (validated true context)) [
    | inr (e, h) ↦ inr (e, λ now db. rw h)
    | inl (o, h) ↦ elim (Result-cases (validate_identifier id "reservationId")) [
      | inr (e, i) ↦ inr (e, λ now db. rw (h, i))
      | inl (x, i) ↦ elim (Result-cases (required_key context.idempotency_key)) [
        | inr (e, j) ↦ inr (e, λ now db. rw (h, i, j))
        | inl (key, j) ↦ inl (
          record {
            key = key;
            id = x;
            body = RequestBody.confirm x n;
            row = λ c. confirm_row c x n;
            returns = λ c q db saved. confirm_row-Ensures (Remembers c) c x q saved n db;
          },
          λ now db. rw (h, i, j),
        )
      ]
    ]
  ]

  release_seats-Opens :
      (reason : Text)
      → Opens p settings Scope.release_seats (λ now. release_seats p settings context now id reason)
  unfolding release_seats
  release_seats-Opens reason = elim (Result-cases (validated true context)) [
    | inr (e, h) ↦ inr (e, λ now db. rw h)
    | inl (o, h) ↦ elim (Result-cases (validate_identifier id "reservationId")) [
      | inr (e, i) ↦ inr (e, λ now db. rw (h, i))
      | inl (x, i) ↦ elim (Result-cases (validate_identifier reason "reasonCode")) [
        | inr (e, k) ↦ inr (e, λ now db. rw (h, i, k))
        | inl (y, k) ↦ elim (Result-cases (required_key context.idempotency_key)) [
          | inr (e, j) ↦ inr (e, λ now db. rw (h, i, k, j))
          | inl (key, j) ↦ inl (
            record {
              key = key;
              id = x;
              body = RequestBody.release x y;
              row = λ c. release_row c x y;
              returns = λ c q db saved. release_row-Ensures (Remembers c) c x q saved y db;
            },
            λ now db. rw (h, i, k, j),
          )
        ]
      ]
    ]
  ]

  extend_reservation-Opens :
      (n seconds : ℕ)
      → Opens p settings Scope.extend_reservation
          (λ now. extend_reservation p settings context now id n seconds)
  unfolding extend_reservation
  extend_reservation-Opens n seconds = elim (Result-cases (validated true context)) [
    | inr (e, h) ↦ inr (e, λ now db. rw h)
    | inl (o, h) ↦ elim (Result-cases (validate_identifier id "reservationId")) [
      | inr (e, i) ↦ inr (e, λ now db. rw (h, i))
      | inl (x, i) ↦
          elim (Result-cases (validate_extension_seconds seconds settings.max_extension_seconds)) [
            | inr (e, k) ↦ inr (e, λ now db. rw (h, i, k))
            | inl (t, k) ↦ elim (Result-cases (required_key context.idempotency_key)) [
              | inr (e, j) ↦ inr (e, λ now db. rw (h, i, k, j))
              | inl (key, j) ↦ inl (
                record {
                  key = key;
                  id = x;
                  body = RequestBody.extend x n t;
                  row = λ c. extend_row c x n t;
                  returns = λ c q db saved. extend_row-Ensures (Remembers c) c x q saved n t db;
                },
                λ now db. rw (h, i, k, j),
              )
            ]
          ]
    ]
  ]

-- A confirmation that returned, called again with the same request at any time, returns the same
-- view and writes nothing, if a time that is written in ISO format is read back as that time.
pub confirm_seats-retried :
    (p : Platform) (settings : Settings) (context : RequestContext) (now later : ℕ) (id : Text)
    (n : ℕ) (db after : Database) (view : ReservationView)
    → ((t : ℕ) → p.fromisoformat (p.isoformat t) ≡ some t)
    → confirm_seats p settings context now id n db ≡ (ok view, after)
    → confirm_seats p settings context later id n after ≡ (ok view, after)
confirm_seats-retried p settings context now later id n db after view reads =
    retried p settings Scope.confirm_seats (λ t. confirm_seats p settings context t id n) reads
      (confirm_seats-Opens p settings context id n) now later db after view

-- A release that returned, called again with the same request at any time, returns the same view
-- and writes nothing, if a time that is written in ISO format is read back as that time.
pub release_seats-retried :
    (p : Platform) (settings : Settings) (context : RequestContext) (now later : ℕ)
    (id reason : Text) (db after : Database) (view : ReservationView)
    → ((t : ℕ) → p.fromisoformat (p.isoformat t) ≡ some t)
    → release_seats p settings context now id reason db ≡ (ok view, after)
    → release_seats p settings context later id reason after ≡ (ok view, after)
release_seats-retried p settings context now later id reason db after view reads =
    retried p settings Scope.release_seats (λ t. release_seats p settings context t id reason) reads
      (release_seats-Opens p settings context id reason) now later db after view

-- An extension that returned, called again with the same request at any time, returns the same view
-- and does not extend the hold a second time, if a time that is written in ISO format is read back
-- as that time.
pub extend_reservation-retried :
    (p : Platform) (settings : Settings) (context : RequestContext) (now later : ℕ) (id : Text)
    (n seconds : ℕ) (db after : Database) (view : ReservationView)
    → ((t : ℕ) → p.fromisoformat (p.isoformat t) ≡ some t)
    → extend_reservation p settings context now id n seconds db ≡ (ok view, after)
    → extend_reservation p settings context later id n seconds after ≡ (ok view, after)
extend_reservation-retried p settings context now later id n seconds db after view reads =
    retried p settings Scope.extend_reservation
      (λ t. extend_reservation p settings context t id n seconds) reads
      (extend_reservation-Opens p settings context id n seconds) now later db after view
