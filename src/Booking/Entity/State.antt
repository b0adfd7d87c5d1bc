-- ===== src/Booking/Entity/State.antt =====
-- The record `Booking`, its creation, and the two helpers that every command calls.
use event_ticketing_soa.Common.{
  ℕ, ◌+◌, Bool, true, false, ◌&&◌, Option, none, some, List, [], ◌∷◌, ⊤, Action, modify,
}
use event_ticketing_soa.Common.Text.{Text, text_eq}
use event_ticketing_soa.Booking.Enums.{
  BookingStatus, PaymentStatus, ReservationEvidenceStatus, CompensationStatus, CompensationAction,
}
use event_ticketing_soa.Booking.Errors.{BookingError}
use event_ticketing_soa.Booking.Values.{BookingItem}

pub record Booking : Type 0 where
  pub booking_id : Text
  pub customer_id : Text
  pub event_id : Text
  pub items : List (BookingItem ℕ)
  pub total_amount : ℕ
  pub currency : Text
  pub status : BookingStatus
  pub payment_status : PaymentStatus
  pub reservation_status : ReservationEvidenceStatus
  pub compensation_status : CompensationStatus
  pub compensation_action : CompensationAction
  pub resource_version : ℕ
  pub created_at : ℕ
  pub updated_at : ℕ
  pub reservation_id : Option Text
  pub payment_method : Option Text
  pub payment_id : Option Text
  pub ticket_ids : List Text
  pub failure_code : Option Text
  pub failure_reason : Option Text
  pub payment_failure_code : Option Text
  pub cancellation_reason : Option Text
  pub compensation_reason : Option Text
  pub intended_terminal_status : Option BookingStatus
  pub reservation_version : Option ℕ
  pub reservation_expires_at : Option ℕ
  pub payment_provider_reference : Option Text
  pub compensation_provider_reference : Option Text
  pub confirmed_at : Option ℕ
  pub cancelled_at : Option ℕ
  pub reservation_confirmed_at : Option ℕ
  pub reservation_released_at : Option ℕ
  pub payment_recorded_at : Option ℕ
  pub payment_refunded_at : Option ℕ
  pub compensation_updated_at : Option ℕ
  pub tickets_attached_at : Option ℕ

-- A method of the aggregate.
abbrev pub Method : Type 0 → Type 0
Method A = Action BookingError Booking A

-- `_touch`
unfoldable pub touch : ℕ → Method ⊤
touch now = modify (λ b. record b { updated_at = now; resource_version = b.resource_version + 1 })

-- `field == value` of an optional identifier.
unfoldable pub is_text : Option Text → Text → Bool
is_text none t = false
is_text (some s) t = text_eq s t

-- `==` on tuples of identifiers.
unfoldable pub texts_eq : List Text → List Text → Bool
texts_eq [] [] = true
texts_eq (s ∷ ss) (t ∷ ts) = text_eq s t && texts_eq ss ts
texts_eq _ _ = false
