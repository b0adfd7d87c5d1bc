-- ===== src/Inventory/Commands/Expire.antt =====
-- expire_reservations.py. Which rows other transactions have locked is a parameter.
use event_ticketing_soa.Common.{
  ℕ, Bool, false, ◌&&◌, ◌||◌, not, Option, none, some, List, [], ◌∷◌, ◌++◌, suc, zero, ok, lift,
  raise_unless, ◌>>◌, if◌then◌else◌, leb, ltb, ◌==◌, length,
}
use event_ticketing_soa.Common.Rows.{select}
use event_ticketing_soa.Common.Text.{Text, text_le}
use event_ticketing_soa.Inventory.Types.{
  SeatStatus, Reservation, ReservationStatus, reservation_status_eq,
}
use event_ticketing_soa.Inventory.Errors.{invalid}
use event_ticketing_soa.Inventory.Rules.{RequestContext, validated}
use event_ticketing_soa.Inventory.Tables.{Database, Command, is_reserved}
use event_ticketing_soa.Inventory.Replay.{Settings, atomically}
use event_ticketing_soa.Inventory.Commands.Close.{close, is_inconsistent}

pub record ExpiryResult : Type 0 where
  pub expired_count : ℕ
  pub reservation_ids : List Text

-- `batch_size or settings.expiry_batch_size`
abbrev pub batch_or_default : Option ℕ → ℕ → ℕ
batch_or_default none default = default
batch_or_default (some n) default = if n == 0 then default else n

-- The `WHERE` of the statement, with `SKIP LOCKED`.
abbrev pub is_due : (Text → Bool) → ℕ → Reservation → Bool
is_due locked now r =
    reservation_status_eq r.status ReservationStatus.active
    && leb r.expires_at now
    && not (locked r.reservation_id)

-- `ORDER BY expires_at, reservation_id`
abbrev pub comes_before : Reservation → Reservation → Bool
comes_before r s =
    ltb r.expires_at s.expires_at
    || (r.expires_at == s.expires_at && text_le r.reservation_id s.reservation_id)

unfoldable pub insert_due : Reservation → List Reservation → List Reservation
insert_due r [] = r ∷ []
insert_due r (s ∷ rs) =
    let rest = insert_due r rs in if comes_before r s then r ∷ s ∷ rs else s ∷ rest

unfoldable pub order_due : List Reservation → List Reservation
unfolding insert_due
order_due [] = []
order_due (r ∷ rs) = insert_due r (order_due rs)

-- `LIMIT size`
unfoldable pub take : ℕ → List Reservation → List Reservation
take zero rs = []
take (suc n) [] = []
take (suc n) (r ∷ rs) = r ∷ take n rs

-- One round of the loop: an inconsistent allocation is left as it is.
unfoldable pub expire_one : ℕ → Reservation → Database → List Text × Database
unfolding close is_inconsistent
expire_one now r db =
    let id = r.reservation_id in
    if is_inconsistent id (select (is_reserved db.reservation_items id) db.seats)
    then ([], db)
    else (id ∷ [], close id ReservationStatus.expired SeatStatus.available now db)

unfoldable pub expire_each : ℕ → List Reservation → Database → List Text × Database
unfolding expire_one
expire_each now [] db = ([], db)
expire_each now (r ∷ rs) db =
    let (ids, db') = expire_one now r db in
    let (rest, db'') = expire_each now rs db' in (ids ++ rest, db'')

-- `delete_expired_idempotency_records`
abbrev pub forget_replays : ℕ → Database → Database
forget_replays now db = record db {
  idempotency_records = select (λ r. not (leb r.expires_at now)) db.idempotency_records;
}

unfoldable pub expire_batch : (Text → Bool) → ℕ → ℕ → Command ExpiryResult
unfolding expire_each order_due take
expire_batch locked now size db =
    let due = take size (order_due (select (is_due locked now) db.reservations)) in
    let (ids, db') = expire_each now due db in
    (ok (record { expired_count = length ids; reservation_ids = ids }), forget_replays now db')

unfoldable pub expire_reservations :
    Settings → RequestContext → (Text → Bool) → ℕ → Option ℕ → Command ExpiryResult
unfolding expire_batch
expire_reservations settings context locked now batch_size = do
  lift (validated false context)
  let size = batch_or_default batch_size settings.expiry_batch_size
  raise_unless (leb 1 size && leb size 1000) (invalid "batchSize must be between 1 and 1000")
  atomically (expire_batch locked now size)
