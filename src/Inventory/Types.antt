-- ===== src/Inventory/Types.antt =====
-- services/seat-inventory-service/app/domain/seat.py and reservation.py, and the rows of
-- infrastructure/database/models.py that the commands read and write.
use event_ticketing_soa.Common.{ℕ, Bool, true, false, Option, List, String}
use event_ticketing_soa.Common.Text.{Text}

pub data SeatStatus : Type 0 where
  available held sold blocked : SeatStatus

pub data ReservationStatus : Type 0 where
  active confirmed released expired : ReservationStatus

abbrev pub seat_status_eq : SeatStatus → SeatStatus → Bool
seat_status_eq SeatStatus.available SeatStatus.available = true
seat_status_eq SeatStatus.held SeatStatus.held = true
seat_status_eq SeatStatus.sold SeatStatus.sold = true
seat_status_eq SeatStatus.blocked SeatStatus.blocked = true
seat_status_eq _ _ = false

abbrev pub reservation_status_eq : ReservationStatus → ReservationStatus → Bool
reservation_status_eq ReservationStatus.active ReservationStatus.active = true
reservation_status_eq ReservationStatus.confirmed ReservationStatus.confirmed = true
reservation_status_eq ReservationStatus.released ReservationStatus.released = true
reservation_status_eq ReservationStatus.expired ReservationStatus.expired = true
reservation_status_eq _ _ = false

-- `StrEnum`: the member's value.
abbrev pub status_value : ReservationStatus → String
status_value ReservationStatus.active = "ACTIVE"
status_value ReservationStatus.confirmed = "CONFIRMED"
status_value ReservationStatus.released = "RELEASED"
status_value ReservationStatus.expired = "EXPIRED"

-- SeatModel
pub record Seat : Type 0 where
  pub event_id : Text
  pub seat_id : Text
  pub section : Text
  pub row_label : Text
  pub seat_number : Text
  pub ticket_type : Text
  pub status : SeatStatus
  pub current_reservation_id : Option Text
  pub resource_version : ℕ
  pub created_at : ℕ
  pub updated_at : ℕ

-- ReservationModel
pub record Reservation : Type 0 where
  pub reservation_id : Text
  pub booking_id : Text
  pub event_id : Text
  pub status : ReservationStatus
  pub expires_at : ℕ
  pub extend_count : ℕ
  pub resource_version : ℕ
  pub created_at : ℕ
  pub updated_at : ℕ

-- ReservationItemModel
pub record ReservationItem : Type 0 where
  pub reservation_id : Text
  pub event_id : Text
  pub seat_id : Text
  pub created_at : ℕ

pub record ReservationView : Type 0 where
  pub reservation_id : Text
  pub booking_id : Text
  pub event_id : Text
  pub seat_ids : List Text
  pub status : ReservationStatus
  pub expires_at : ℕ
  pub extend_count : ℕ
  pub resource_version : ℕ
  pub created_at : ℕ
  pub updated_at : ℕ
