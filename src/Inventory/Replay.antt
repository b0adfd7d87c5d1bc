-- ===== src/Inventory/Replay.antt =====
-- services/seat-inventory-service/app/application/common.py: stored responses, by scope and key.
-- The digest of a request body and the format of a time are the caller's.
use event_ticketing_soa.Common.{
  ℕ, ◌+◌, Bool, ◌&&◌, Option, none, some, ◌∷◌, Result, ok, err, pure, lift, gets, modify, ◌>>=◌,
  ◌>>◌, if◌then◌else◌,
}
use event_ticketing_soa.Common.Rows.{first}
use event_ticketing_soa.Common.Text.{Text, text_eq}
use event_ticketing_soa.Inventory.Types.{ReservationView}
use event_ticketing_soa.Inventory.Errors.{SeatInventoryError}
use event_ticketing_soa.Inventory.Tables.{
  ReservationPayload, IdempotencyRecord, Scope, scope_eq, Database, Command,
}
use event_ticketing_soa.Inventory.Payload.{Platform, RequestBody, reservation_to_payload}

-- The settings that the commands read.
pub record Settings : Type 0 where
  pub min_hold_seconds : ℕ
  pub max_hold_seconds : ℕ
  pub max_extension_seconds : ℕ
  pub max_extend_count : ℕ
  pub expiry_batch_size : ℕ
  pub idempotency_ttl_seconds : ℕ

-- What the transaction of a command is given.
pub record Call : Type 0 where
  pub platform : Platform
  pub settings : Settings
  pub scope : Scope
  pub idempotency_key : Text
  pub request_hash : Text
  -- `database_now`
  pub now : ℕ

abbrev pub new_call : Platform → Settings → Scope → Text → RequestBody → ℕ → Call
new_call p settings scope key body now = record {
  platform = p;
  settings = settings;
  scope = scope;
  idempotency_key = key;
  request_hash = p.canonical_request_hash body;
  now = now;
}

abbrev pub is_record : Scope → Text → IdempotencyRecord → Bool
is_record scope key r = scope_eq r.scope scope && text_eq r.idempotency_key key

-- The record that `replay_or_lock` found.
unfoldable pub check_record :
    Text → Option IdempotencyRecord → Result SeatInventoryError (Option ReservationPayload)
check_record request_hash none = ok none
check_record request_hash (some r) =
    if text_eq r.request_hash request_hash
    then ok (some r.response_body)
    else err SeatInventoryError.idempotency_conflict

unfoldable pub replay_or_lock : Call → Command (Option ReservationPayload)
unfolding check_record
replay_or_lock c = do
  record' ← gets (λ db. first (is_record c.scope c.idempotency_key) db.idempotency_records)
  lift (check_record c.request_hash record')

-- `save_idempotency_record`, the insert.
abbrev pub store_record : Call → ReservationView → Database → Database
store_record c view db = record db {
  idempotency_records =
      record {
        scope = c.scope;
        idempotency_key = c.idempotency_key;
        request_hash = c.request_hash;
        response_body = reservation_to_payload c.platform view;
        resource_id = view.reservation_id;
        created_at = c.now;
        expires_at = c.now + c.settings.idempotency_ttl_seconds;
      }
      ∷ db.idempotency_records;
}

-- `save_replay`, and the return of the view that it stored.
unfoldable pub save_replay : Call → ReservationView → Command ReservationView
unfolding reservation_to_payload
save_replay c view = do modify (store_record c view); pure view

-- `with session.begin()`: a raise takes every write back.
abbrev pub committed :
    {A : Type 0}
    → Database
    → Result SeatInventoryError A × Database
    → Result SeatInventoryError A × Database
committed db (ok a, db') = (ok a, db')
committed db (err e, _) = (err e, db)

abbrev pub atomically : {A : Type 0} → Command A → Command A
atomically m db = committed db (m db)
