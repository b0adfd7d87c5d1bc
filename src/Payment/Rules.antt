-- ===== src/Payment/Rules.antt =====
-- services/payment-service/app/domain/rules.py: validation, minor units and the transition table.
-- Hashing and the lock's number are not modelled.
use Prim.Native.Nat.{◌*◌, ◌^◌, ◌/◌, ◌%◌}
use event_ticketing_soa.Common.{
  ℕ, String, Bool, true, false, ◌&&◌, ◌||◌, not, Option, none, some, List, [], ◌∷◌, Result, ok, err,
  ⊤, if◌then◌else◌, ltb, leb, ◌==◌, length, one_of,
}
use event_ticketing_soa.Common.Pure.{◌>>=◌, ◌>>◌, raise_if, raise_unless}
use event_ticketing_soa.Common.Text.{
  Text, strip, matches_identifier, matches_currency, upper, lower, codes, text_eq, is_upper_ascii,
  is_lower_ascii,
}
use event_ticketing_soa.Common.Money.{
  Decimal, is_finite, is_negative, is_zero, quantize_cents, equals_cents,
}
use event_ticketing_soa.Payment.Enums.{PaymentStatus, MockProviderScenario, status}
use event_ticketing_soa.Payment.Errors.{PaymentError, Message, invalid}

abbrev pub allowed_transitions : PaymentStatus → List PaymentStatus
allowed_transitions PaymentStatus.pending =
    PaymentStatus.authorized ∷ PaymentStatus.captured ∷ PaymentStatus.unknown ∷ PaymentStatus.failed
    ∷ PaymentStatus.cancelled ∷ []
allowed_transitions PaymentStatus.authorized =
    PaymentStatus.captured ∷ PaymentStatus.unknown ∷ PaymentStatus.failed ∷ PaymentStatus.cancelled
    ∷ []
allowed_transitions PaymentStatus.captured =
    PaymentStatus.unknown ∷ PaymentStatus.partially_refunded ∷ PaymentStatus.refunded ∷ []
allowed_transitions PaymentStatus.unknown =
    PaymentStatus.authorized ∷ PaymentStatus.captured ∷ PaymentStatus.failed
    ∷ PaymentStatus.cancelled ∷ PaymentStatus.partially_refunded ∷ PaymentStatus.refunded ∷ []
allowed_transitions PaymentStatus.partially_refunded =
    PaymentStatus.unknown ∷ PaymentStatus.partially_refunded ∷ PaymentStatus.refunded ∷ []
allowed_transitions PaymentStatus.failed = []
allowed_transitions PaymentStatus.cancelled = []
allowed_transitions PaymentStatus.refunded = []

unfoldable pub ensure_transition_allowed : PaymentStatus → PaymentStatus → Result PaymentError ⊤
ensure_transition_allowed current target =
    raise_unless (one_of target (allowed_transitions current))
      (PaymentError.invalid_state_transition current target)

unfoldable pub validate_identifier : Text → String → ℕ → Result PaymentError Text
validate_identifier value field max_length =
    let normalized = strip value in
    if not (matches_identifier normalized) || ltb max_length (length normalized)
    then err (PaymentError.invalid_request (Message.unsafe_identifier field max_length))
    else ok normalized

unfoldable pub validate_optional_identifier :
    Option Text → String → ℕ → Result PaymentError (Option Text)
validate_optional_identifier none field max_length = ok none
validate_optional_identifier (some value) field max_length = do
  normalized ← validate_identifier value field max_length
  ok (some normalized)

-- `any(character.isalpha() for character in normalized)`, of an identifier, which is ASCII.
unfoldable pub has_letter : Text → Bool
has_letter [] = false
has_letter (c ∷ s) = is_upper_ascii c || is_lower_ascii c || has_letter s

unfoldable pub validate_payment_method : Text → Result PaymentError Text
unfolding has_letter
validate_payment_method value = do
  normalized ← validate_identifier value "paymentMethod" 40
  raise_unless (has_letter normalized)
      (invalid "paymentMethod must be a non-sensitive method category, not card data")
  ok normalized

unfoldable pub validate_currency : Text → Result PaymentError Text
validate_currency value = do
  let normalized = upper (strip value)
  raise_unless (matches_currency normalized) (invalid "currency must be a three-letter ISO code")
  ok normalized

-- `CURRENCY_EXPONENTS.get(currency, 2)`
unfoldable pub exponent_of : Text → ℕ
exponent_of code = if text_eq code (codes "VND") then 0 else 2

unfoldable pub currency_exponent : Text → Result PaymentError ℕ
currency_exponent currency = do code ← validate_currency currency; ok (exponent_of code)

abbrev pub amount_qualifier : Bool → String
amount_qualifier true = "non-negative"
amount_qualifier false = "positive"

-- The amount in cents.
unfoldable pub validate_money : Decimal → String → Bool → Result PaymentError ℕ
validate_money value field allow_zero =
    if not (is_finite value) || is_negative value || (not allow_zero && is_zero value)
    then err
        (PaymentError.invalid_request (Message.not_an_amount field (amount_qualifier allow_zero)))
    else elim (quantize_cents value) [
      | none ↦ err (PaymentError.invalid_request (Message.out_of_range field))
      | some normalized ↦
          if not (equals_cents value normalized)
          then err (PaymentError.invalid_request (Message.too_precise field))
          else if leb (10000000000000000 * 10 ^ 2) normalized
          then err (PaymentError.invalid_request (Message.out_of_range field))
          else ok normalized
    ]

-- `Decimal(amount_minor) / Decimal(10) ** exponent`; the amount comes back in cents.
unfoldable pub amount_from_minor : ℕ → Text → Result PaymentError ℕ
amount_from_minor amount_minor currency = do
  raise_if (amount_minor == 0) (invalid "amountMinor must be positive")
  exponent ← currency_exponent currency
  validate_money (Decimal.fraction false amount_minor exponent) "amountMinor" false

unfoldable pub amount_to_minor : Decimal → Text → Result PaymentError ℕ
amount_to_minor amount currency = do
  normalized ← validate_money amount "amount" false
  exponent ← currency_exponent currency
  let hundredths = normalized * 10 ^ exponent
  raise_unless (hundredths % 100 == 0)
      (PaymentError.invalid_request (Message.not_representable currency))
  ok (hundredths / 100)

unfoldable pub validate_reason : Text → String → Result PaymentError Text
validate_reason value field =
    let normalized = strip value in
    if length normalized == 0 || ltb 2000 (length normalized)
    then err (PaymentError.invalid_request (Message.bad_length field))
    else ok normalized

-- The digest of a token; the hash function is the caller's.
unfoldable pub payment_token_fingerprint :
    (Text → Text) → Option Text → Result PaymentError (Option Text)
payment_token_fingerprint sha256 none = ok none
payment_token_fingerprint sha256 (some value) =
    let token = strip value in
    if leb 8 (length token) && leb (length token) 256
    then ok (some (sha256 token))
    else err (invalid "methodToken must be between 8 and 256 characters")

-- The table `known` of `mock_scenario_from_token`, with its default.
unfoldable pub known_scenario : Text → MockProviderScenario
known_scenario t =
    if text_eq t (codes "tok_demo_success") || text_eq t (codes "sim-ok")
    then MockProviderScenario.success
    else if text_eq t (codes "tok_demo_decline") || text_eq t (codes "sim-decline")
    then MockProviderScenario.decline
    else if text_eq t (codes "tok_demo_timeout") || text_eq t (codes "sim-timeout")
    then MockProviderScenario.timeout
    else MockProviderScenario.manual

unfoldable pub mock_scenario_from_token : Option Text → MockProviderScenario
unfolding known_scenario
mock_scenario_from_token none = MockProviderScenario.manual
mock_scenario_from_token (some value) = known_scenario (lower (strip value))
