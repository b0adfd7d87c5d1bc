-- ===== src/Booking/Entity/Create.antt =====
-- `Booking.create` and `Booking.from_request`.
use event_ticketing_soa.Common.{ℕ, Option, none, List, [], Result, ok}
use event_ticketing_soa.Common.Pure.{◌>>=◌}
use event_ticketing_soa.Common.Text.{Text}
use event_ticketing_soa.Common.Money.{Decimal}
use event_ticketing_soa.Booking.Enums.{
  BookingStatus, PaymentStatus, ReservationEvidenceStatus, CompensationStatus, CompensationAction,
}
use event_ticketing_soa.Booking.Errors.{BookingError}
use event_ticketing_soa.Booking.Values.{BookingItem, NewBookingRequest}
use event_ticketing_soa.Booking.Rules.{validate_identifier, normalize_new_booking}
use event_ticketing_soa.Booking.Entity.State.{Booking}

unfoldable pub from_request : Text → NewBookingRequest → ℕ → Result BookingError Booking
from_request booking_id request now = do
  id ← validate_identifier booking_id "bookingId" 128
  ok (record {
    booking_id = id;
    customer_id = request.customer_id;
    event_id = request.event_id;
    items = request.items;
    total_amount = request.total_amount;
    currency = request.currency;
    status = BookingStatus.pending;
    payment_status = PaymentStatus.pending;
    reservation_status = ReservationEvidenceStatus.pending;
    compensation_status = CompensationStatus.not_required;
    compensation_action = CompensationAction.none;
    resource_version = 1;
    created_at = now;
    updated_at = now;
    reservation_id = request.reservation_id;
    payment_method = request.payment_method;
    payment_id = none;
    ticket_ids = [];
    failure_code = none;
    failure_reason = none;
    payment_failure_code = none;
    cancellation_reason = none;
    compensation_reason = none;
    intended_terminal_status = none;
    reservation_version = none;
    reservation_expires_at = none;
    payment_provider_reference = none;
    compensation_provider_reference = none;
    confirmed_at = none;
    cancelled_at = none;
    reservation_confirmed_at = none;
    reservation_released_at = none;
    payment_recorded_at = none;
    payment_refunded_at = none;
    compensation_updated_at = none;
    tickets_attached_at = none;
  })

unfoldable pub create :
    (booking_id customer_id event_id : Text)
    → (reservation_id payment_method : Option Text) → List (BookingItem Decimal)
    → Option Decimal
    → Text
    → ℕ
    → Result BookingError Booking
unfolding from_request
create booking_id customer_id event_id reservation_id payment_method items total_amount currency
      now =
    do
      request ←
          normalize_new_booking customer_id event_id reservation_id payment_method items
            total_amount currency
      id ← validate_identifier booking_id "bookingId" 128
      from_request id request now
