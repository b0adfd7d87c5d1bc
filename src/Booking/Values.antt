-- ===== src/Booking/Values.antt =====
-- services/booking-service/app/domain/value_objects.py: the immutable values of the aggregate.
-- Times are numbers on the database's clock. An item's price is a `Decimal` before validation and a
-- number of cents after it. The evidence's `details`, which the aggregate never reads, are left out.
use event_ticketing_soa.Common.{ℕ, ◌+◌, ◌-◌, ◌/◌, Bool, false, Option, none, List}
use event_ticketing_soa.Common.Text.{Text}
use event_ticketing_soa.Booking.Enums.{PaymentStatus}
use Prim.Native.Nat.{max}

pub record BookingItem (Price : Type 0) : Type 0 where
  pub seat_id : Text
  pub ticket_type : Text
  pub unit_price : Price

pub record NewBookingRequest : Type 0 where
  pub customer_id : Text
  pub event_id : Text
  pub reservation_id : Option Text
  pub payment_method : Option Text
  pub items : List (BookingItem ℕ)
  pub total_amount : ℕ
  pub currency : Text

pub record CompensationEvidence : Type 0 where
  pub reservation_released : Bool
  pub payment_refunded : Bool
  pub provider_reference : Option Text
  pub verified_at : Option ℕ
  pub resolved_payment_status : Option PaymentStatus

-- `CompensationEvidence()`
abbrev pub no_evidence : CompensationEvidence
no_evidence = record {
  reservation_released = false;
  payment_refunded = false;
  provider_reference = none;
  verified_at = none;
  resolved_payment_status = none;
}

-- `BookingPage.total_pages`, for a positive page size.
unfoldable pub total_pages : ℕ → ℕ → ℕ
total_pages total page_size = max 1 ((total + page_size - 1) / page_size)
