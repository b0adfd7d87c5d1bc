-- ===== src/Payment/Values.antt =====
-- services/payment-service/app/domain/value_objects.py: the evidence of the booking, the draft of a
-- payment, and a refund. Amounts are in cents once they are validated.
use event_ticketing_soa.Common.{
  ℕ, Bool, false, ◌||◌, not, Option, none, some, Result, ok, ⊤, ◌==◌, is_some,
}
use event_ticketing_soa.Common.Pure.{◌>>=◌, ◌>>◌, raise_if}
use event_ticketing_soa.Common.Text.{Text, text_eq}
use event_ticketing_soa.Common.Money.{Decimal}
use event_ticketing_soa.Payment.Enums.{MockProviderScenario, RefundKind}
use event_ticketing_soa.Payment.Errors.{PaymentError}
use event_ticketing_soa.Payment.Rules.{
  validate_identifier, validate_money, validate_currency, validate_payment_method,
  payment_token_fingerprint, mock_scenario_from_token,
}

pub record BookingPaymentEvidence : Type 0 where
  pub booking_id : Text
  pub customer_id : Text
  pub amount : ℕ
  pub currency : Text
  pub resource_version : Option ℕ
  pub evidence_id : Option Text

pub record PaymentDraft : Type 0 where
  pub booking_id : Text
  pub customer_id : Text
  pub amount : ℕ
  pub currency : Text
  pub payment_method : Text
  pub provider : Text
  pub method_fingerprint : Option Text
  pub provider_scenario : MockProviderScenario
  pub booking_evidence_version : Option ℕ
  pub booking_evidence_id : Option Text
  pub booking_evidence_verified : Bool

pub record Refund : Type 0 where
  pub refund_id : Text
  pub payment_id : Text
  pub amount : ℕ
  pub currency : Text
  pub reason : Text
  pub kind : RefundKind
  pub provider_reference : Text
  pub created_at : ℕ

-- `BookingPaymentEvidence.assert_matches`, with the amount and the currency validated: its one
-- caller passes them so.
unfoldable pub assert_matches :
    BookingPaymentEvidence → Text → Text → ℕ → Text → Result PaymentError ⊤
assert_matches e booking_id customer_id amount currency = do
  raise_if (not (text_eq e.booking_id booking_id) || not (text_eq e.customer_id customer_id))
      (PaymentError.payment_amount_mismatch e.amount amount e.currency currency)
  raise_if (not (e.amount == amount) || not (text_eq e.currency currency))
      (PaymentError.payment_amount_mismatch e.amount amount e.currency currency)

-- `if booking_evidence is not None: ...`
unfoldable pub check_evidence :
    Option BookingPaymentEvidence → Text → Text → ℕ → Text → Result PaymentError ⊤
check_evidence none booking_id customer_id amount currency = ok tt
check_evidence (some e) booking_id customer_id amount currency =
    assert_matches e booking_id customer_id amount currency

abbrev pub evidence_version : Option BookingPaymentEvidence → Option ℕ
evidence_version none = none
evidence_version (some e) = e.resource_version

abbrev pub evidence_id : Option BookingPaymentEvidence → Option Text
evidence_id none = none
evidence_id (some e) = e.evidence_id

-- `PaymentDraft.from_request`
unfoldable pub draft_from_request :
    (Text → Text)
    → (booking_id customer_id : Text) → Decimal
    → (currency payment_method provider : Text) → Option Text
    → Option BookingPaymentEvidence
    → Result PaymentError PaymentDraft
unfolding check_evidence assert_matches
draft_from_request sha256 booking_id customer_id amount currency payment_method provider
      method_token booking_evidence =
    do
      booking ← validate_identifier booking_id "bookingId" 128
      customer ← validate_identifier customer_id "customerId" 128
      cents ← validate_money amount "amount" false
      code ← validate_currency currency
      check_evidence booking_evidence booking customer cents code
      method ← validate_payment_method payment_method
      provider_id ← validate_identifier provider "provider" 40
      fingerprint ← payment_token_fingerprint sha256 method_token
      ok (record {
        booking_id = booking;
        customer_id = customer;
        amount = cents;
        currency = code;
        payment_method = method;
        provider = provider_id;
        method_fingerprint = fingerprint;
        provider_scenario = mock_scenario_from_token method_token;
        booking_evidence_version = evidence_version booking_evidence;
        booking_evidence_id = evidence_id booking_evidence;
        booking_evidence_verified = is_some booking_evidence;
      })
