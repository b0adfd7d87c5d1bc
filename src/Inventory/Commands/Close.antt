-- ===== src/Inventory/Commands/Close.antt =====
-- The steps that confirm_seats.py, release_seats.py and expire_reservations.py share: the check of
-- the seats of a hold, and the loop that moves them.
use event_ticketing_soa.Common.{
  ℕ, ◌+◌, Bool, true, false, ◌||◌, not, Option, none, some, List, [], ◌∷◌, Result, ok, err, self,
  modify, raise_if, ◌>>=◌, ◌>>◌, some_and, ⊤, ltb, length,
}
use event_ticketing_soa.Common.Rows.{any, update}
use event_ticketing_soa.Common.Text.{Text, text_eq}
use event_ticketing_soa.Inventory.Types.{
  Seat, SeatStatus, Reservation, ReservationStatus, ReservationView, seat_status_eq,
}
use event_ticketing_soa.Inventory.Errors.{SeatInventoryError}
use event_ticketing_soa.Inventory.Tables.{
  Database, Command, is_reserved, has_id, lock_reservation_seats, reservation_to_view,
}
use event_ticketing_soa.Inventory.Replay.{Call, save_replay}

-- `seat.status != HELD or seat.current_reservation_id != reservation_id`
abbrev pub is_foreign : Text → Seat → Bool
is_foreign reservation_id s =
    not (seat_status_eq s.status SeatStatus.held)
    || not (some_and s.current_reservation_id (λ o. text_eq o reservation_id))

abbrev pub is_nil : {A : Type 0} → List A → Bool
is_nil [] = true
is_nil (_ ∷ _) = false

-- `not seats or any(...)`
unfoldable pub is_inconsistent : Text → List Seat → Bool
is_inconsistent reservation_id seats = is_nil seats || any (is_foreign reservation_id) seats

-- The body of the loop over the seats.
abbrev pub moved : SeatStatus → ℕ → Seat → Seat
moved status now s = record s {
  status = status;
  current_reservation_id = none;
  resource_version = s.resource_version + 1;
  updated_at = now;
}

abbrev pub closed : ReservationStatus → ℕ → Reservation → Reservation
closed status now r = record r {
  status = status;
  resource_version = r.resource_version + 1;
  updated_at = now;
}

-- The loop, and the writes to the reservation.
unfoldable pub close : Text → ReservationStatus → SeatStatus → ℕ → Database → Database
close reservation_id status seat_status now db = record db {
  seats = update (is_reserved db.reservation_items reservation_id) (moved seat_status now) db.seats;
  reservations = update (has_id reservation_id) (closed status now) db.reservations;
}

-- `append_audit`, which inserts a row for each seat of the loop. The rows are not kept; the column of
-- `reason_code` takes 80 characters, and the insert of a longer one is refused.
unfoldable pub append_audit : Text → Command ⊤
append_audit reason_code = raise_if (ltb 80 (length reason_code)) SeatInventoryError.data_error

-- Confirm or release the hold `r`: the check of its seats, the loop with its audit rows, and the
-- stored response.
unfoldable pub close_reservation :
    Call
    → (reservation_id reason_code : Text) → ReservationStatus
    → SeatStatus
    → Reservation
    → Command ReservationView
unfolding close is_inconsistent append_audit
close_reservation c reservation_id reason_code status seat_status r = do
  seats ← lock_reservation_seats reservation_id
  raise_if (is_inconsistent reservation_id seats)
      (SeatInventoryError.invalid_reservation_state reservation_id "INCONSISTENT_SEAT_HOLD")
  modify (close reservation_id status seat_status c.now)
  append_audit reason_code
  db ← self
  save_replay c
      (reservation_to_view c.platform.order_by_seat_id db.reservation_items (closed status c.now r))

-- The row's view as it stands, stored under the key.
unfoldable pub reply_with_row : Call → Reservation → Command ReservationView
reply_with_row c r = do
  db ← self
  save_replay c (reservation_to_view c.platform.order_by_seat_id db.reservation_items r)

-- `idempotency_key is None` after the validation that requires it.
unfoldable pub required_key : Option Text → Result SeatInventoryError Text
required_key none = err SeatInventoryError.assertion_error
required_key (some key) = ok key
