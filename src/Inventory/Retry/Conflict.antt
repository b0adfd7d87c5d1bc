-- ===== src/Inventory/Retry/Conflict.antt =====
-- An idempotency key that comes again with another request.
use event_ticketing_soa.Common.{
  ℕ, true, false, ◌≡◌, Option, none, some, arith, refl, inl, inr, Result-cases, ok, err, Ensures,
  sym, ⊤, ◌∙◌, subst, Bool-cases,
}
use event_ticketing_soa.Common.Rows.{first}
use event_ticketing_soa.Common.Text.{Text, text_eq, text_eq_iff}
use event_ticketing_soa.Inventory.Types.{ReservationView}
use event_ticketing_soa.Inventory.Errors.{SeatInventoryError}
use event_ticketing_soa.Inventory.Rules.{RequestContext, validated, validate_identifier}
use event_ticketing_soa.Inventory.Tables.{Database, Scope, IdempotencyRecord, ReservationPayload}
use event_ticketing_soa.Inventory.Payload.{Platform, RequestBody}
use event_ticketing_soa.Inventory.Replay.{Settings, new_call, is_record, check_record}
use event_ticketing_soa.Inventory.Commands.{
  confirm_row, on_reservation, required_key, confirm_seats,
}
use event_ticketing_soa.Inventory.Retry.Remembers.{
  Remembers, store_record-Remembers, confirm_row-Ensures, on_reservation-Remembers,
  conflict-on_reservation,
}

-- The row of a stored response.
check_record-some :
    (hash : Text) (o : Option IdempotencyRecord) (payload : ReservationPayload)
    → check_record hash o ≡ ok (some payload)
    → (r : IdempotencyRecord) × (o ≡ some r) × (text_eq r.request_hash hash ≡ true)
unfolding check_record
check_record-some hash none payload h = absurd (cc)
check_record-some hash (some r) payload h = elim (Bool-cases (text_eq r.request_hash hash)) [
  | inl k ↦ (r, refl, k)
  | inr k ↦ absurd (ground arith)
]

-- A request that passes its checks is its transaction.
confirm_seats-opened :
    (p : Platform) (settings : Settings) (context : RequestContext) (key : Text) (now : ℕ)
    (id x : Text) (n : ℕ) (db : Database) (o : ⊤)
    → validated true context ≡ ok o
    → required_key context.idempotency_key ≡ ok key
    → validate_identifier id "reservationId" ≡ ok x
    → let c = new_call p settings Scope.confirm_seats key (RequestBody.confirm x n) now in
      confirm_seats p settings context now id n db ≡ on_reservation c x (confirm_row c x n) db
unfolding confirm_seats
confirm_seats-opened p settings context key now id x n db o h j i = rw (h, i, j)

-- One who reuses a key: after a confirmation that returned, a confirmation under the same key of
-- another reservation or version, whose digest differs, is refused as an idempotency conflict and
-- writes nothing.
pub confirm_seats-conflict :
    (p : Platform) (settings : Settings) (context : RequestContext) (now later : ℕ)
    (id x id' y : Text) (n m : ℕ) (db after : Database) (view : ReservationView)
    → ((t : ℕ) → p.fromisoformat (p.isoformat t) ≡ some t)
    → validate_identifier id "reservationId" ≡ ok x
    → validate_identifier id' "reservationId" ≡ ok y
    → text_eq
        (p.canonical_request_hash (RequestBody.confirm x n))
        (p.canonical_request_hash (RequestBody.confirm y m))
      ≡ false
    → confirm_seats p settings context now id n db ≡ (ok view, after)
    → confirm_seats p settings context later id' m after
      ≡ (err SeatInventoryError.idempotency_conflict, after)
unfolding confirm_seats
confirm_seats-conflict p settings context now later id x id' y n m db after view reads i i' differs
      h =
    elim (Result-cases (validated true context)) [
      | inr (e, v) ↦
          absurd (let k : confirm_seats p settings context now id n db ≡ (err e, db) = rw v in cc)
      | inl (o, v) ↦ elim (Result-cases (required_key context.idempotency_key)) [
        | inr (e, j) ↦ absurd (
            let k : confirm_seats p settings context now id n db ≡ (err e, db) = rw (v, i, j) in cc)
        | inl (key, j) ↦
            let c = new_call p settings Scope.confirm_seats key (RequestBody.confirm x n) now in
            let c' = new_call p settings Scope.confirm_seats key (RequestBody.confirm y m) later in
            let k : Remembers c view after =
              subst (Ensures (Remembers c))
                (sym (confirm_seats-opened p settings context key now id x n db o v j i) ∙ h)
                (on_reservation-Remembers c x (confirm_row c x n)
                  (λ q db'.
                    confirm_row-Ensures (Remembers c) c x q
                      (λ view' after'. store_record-Remembers c view' after' reads) n db')
                  db) in
            let (r, f, e) =
              check_record-some c.request_hash
                (first (is_record c.scope c.idempotency_key) after.idempotency_records) k.payload
                k.stored in
            confirm_seats-opened p settings context key later id' y m after o v j i'
            ∙ conflict-on_reservation c' y (confirm_row c' y m) after r f (
                subst (λ t. text_eq t c'.request_hash ≡ false)
                  (sym ((text_eq_iff r.request_hash c.request_hash).0 e)) differs)
      ]
    ]
