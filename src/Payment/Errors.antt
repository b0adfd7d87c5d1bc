-- ===== src/Payment/Errors.antt =====
-- services/payment-service/app/domain/exceptions.py: the errors that the aggregate and its values
-- raise. A message that names a field, a limit or a currency is a constructor of its own.
use event_ticketing_soa.Common.{ℕ, String}
use event_ticketing_soa.Common.Text.{Text}
use event_ticketing_soa.Payment.Enums.{PaymentStatus, ProviderOperation}

pub data Message : Type 0 where
  text : String → Message
  -- "{field} must be 1-{max_length} safe identifier characters"
  unsafe_identifier : String → ℕ → Message
  -- "{field} must be a finite {qualifier} amount"
  not_an_amount : String → String → Message
  -- "{field} must have no more than two decimal places"
  too_precise : String → Message
  -- "{field} is outside the supported range"
  out_of_range : String → Message
  -- "{field} must be between 1 and 2000 characters"
  bad_length : String → Message
  -- "amount is not representable in minor units for {currency}"
  not_representable : Text → Message
  -- "{operation} cannot produce {status}"
  cannot_produce : ProviderOperation → PaymentStatus → Message

pub data PaymentError : Type 0 where
  invalid_request : Message → PaymentError
  invalid_state_transition : PaymentStatus → PaymentStatus → PaymentError
  version_conflict : ℕ → ℕ → PaymentError
  -- The amounts in cents, and the currencies.
  payment_amount_mismatch : ℕ → ℕ → Text → Text → PaymentError
  provider_reference_conflict : PaymentError
  -- None where a text is needed.
  attribute_error : PaymentError

abbrev pub invalid : String → PaymentError
invalid s = PaymentError.invalid_request (Message.text s)
