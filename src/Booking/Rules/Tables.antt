-- ===== src/Booking/Rules/Tables.antt =====
-- The functions of rules.py.
use Prim.Native.Nat.{◌*◌, ◌^◌}
use event_ticketing_soa.Common.{
  ℕ, ◌+◌, String, ◌&&◌, ◌||◌, not, Option, none, some, List, [], ◌∷◌, Result, ok, err, ⊤,
  if◌then◌else◌, ltb, leb, ◌==◌, length, one_of,
}
use event_ticketing_soa.Common.Pure.{◌>>=◌, ◌>>◌, raise_if, raise_unless}
use event_ticketing_soa.Common.Text.{
  Text, strip, matches_identifier, matches_currency, upper, mem_text, text_le,
}
use event_ticketing_soa.Common.Money.{Decimal, is_finite, is_negative, quantize_cents, equals_cents}
use event_ticketing_soa.Booking.Enums.{BookingStatus, booking_status}
use event_ticketing_soa.Booking.Errors.{BookingError, Message, invalid}
use event_ticketing_soa.Booking.Values.{BookingItem, NewBookingRequest}

abbrev pub allowed_transitions : BookingStatus → List BookingStatus
allowed_transitions BookingStatus.pending =
    BookingStatus.seat_reserved ∷ BookingStatus.failed ∷ BookingStatus.cancelled
    ∷ BookingStatus.compensation_pending ∷ []
allowed_transitions BookingStatus.seat_reserved =
    BookingStatus.payment_processing ∷ BookingStatus.failed ∷ BookingStatus.cancelled
    ∷ BookingStatus.compensation_pending ∷ []
allowed_transitions BookingStatus.payment_processing =
    BookingStatus.confirmed ∷ BookingStatus.failed ∷ BookingStatus.compensation_pending ∷ []
allowed_transitions BookingStatus.confirmed =
    BookingStatus.cancelled ∷ BookingStatus.compensation_pending ∷ []
allowed_transitions BookingStatus.compensation_pending =
    BookingStatus.failed ∷ BookingStatus.cancelled ∷ []
allowed_transitions BookingStatus.failed = []
allowed_transitions BookingStatus.cancelled = []

unfoldable pub ensure_transition_allowed : BookingStatus → BookingStatus → Result BookingError ⊤
ensure_transition_allowed current target =
    raise_unless (one_of target (allowed_transitions current))
      (BookingError.invalid_state_transition current target)

unfoldable pub validate_identifier : Text → String → ℕ → Result BookingError Text
validate_identifier value field max_length =
    let normalized = strip value in
    if not (matches_identifier normalized) || ltb max_length (length normalized)
    then err (BookingError.invalid_request (Message.unsafe_identifier field max_length))
    else ok normalized

unfoldable pub validate_optional_identifier :
    Option Text → String → ℕ → Result BookingError (Option Text)
validate_optional_identifier none field max_length = ok none
validate_optional_identifier (some value) field max_length = do
  normalized ← validate_identifier value field max_length
  ok (some normalized)

unfoldable pub validate_currency : Text → Result BookingError Text
validate_currency value = do
  let normalized = upper (strip value)
  raise_unless (matches_currency normalized) (invalid "currency must be a three-letter ISO code")
  ok normalized

-- The amount in cents.
unfoldable pub validate_money : Decimal → String → Result BookingError ℕ
validate_money value field =
    if not (is_finite value) || is_negative value
    then err (BookingError.invalid_request (Message.not_an_amount field))
    else elim (quantize_cents value) [
      | none ↦ err (BookingError.invalid_request (Message.out_of_range field))
      | some normalized ↦
          if not (equals_cents value normalized)
          then err (BookingError.invalid_request (Message.too_precise field))
          else if leb (10000000000000000 * 10 ^ 2) normalized
          then err (BookingError.invalid_request (Message.out_of_range field))
          else ok normalized
    ]

unfoldable pub validate_reason : Text → String → Result BookingError Text
validate_reason value field =
    let normalized = strip value in
    if length normalized == 0 || ltb 2000 (length normalized)
    then err (BookingError.invalid_request (Message.bad_length field))
    else ok normalized

unfoldable pub validate_expected_version : ℕ → Result BookingError ℕ
validate_expected_version value =
    if ltb value 1 then err (invalid "expectedVersion must be at least 1") else ok value

-- One round of the loop of `normalize_items`: the item with its fields validated.
unfoldable pub normalize_item :
    List Text → BookingItem Decimal → Result BookingError (BookingItem ℕ)
normalize_item seen item = do
  seat_id ← validate_identifier item.seat_id "seatId" 128
  ticket_type ← validate_identifier item.ticket_type "ticketType" 128
  raise_if (mem_text seat_id seen) (BookingError.invalid_request (Message.duplicate_seat seat_id))
  unit_price ← validate_money item.unit_price "unitPrice"
  ok (record { seat_id = seat_id; ticket_type = ticket_type; unit_price = unit_price })

unfoldable pub normalize_each :
    List Text → List (BookingItem Decimal) → Result BookingError (List (BookingItem ℕ))
normalize_each seen [] = ok []
normalize_each seen (item ∷ items) = do
  first ← normalize_item seen item
  rest ← normalize_each (first.seat_id ∷ seen) items
  ok (first ∷ rest)

-- `sorted(normalized, key=lambda item: item.seat_id)`
unfoldable pub insert_item : BookingItem ℕ → List (BookingItem ℕ) → List (BookingItem ℕ)
insert_item item [] = item ∷ []
insert_item item (x ∷ xs) =
    if text_le item.seat_id x.seat_id then item ∷ x ∷ xs else x ∷ insert_item item xs

unfoldable pub sort_items : List (BookingItem ℕ) → List (BookingItem ℕ)
sort_items [] = []
sort_items (x ∷ xs) = insert_item x (sort_items xs)

unfoldable pub normalize_items :
    List (BookingItem Decimal) → Result BookingError (List (BookingItem ℕ))
normalize_items items = do
  raise_unless (leb 1 (length items) && leb (length items) 50)
      (invalid "A booking must contain between 1 and 50 items")
  normalized ← normalize_each [] items
  ok (sort_items normalized)

-- `sum(item.unit_price for item in items)`, in cents.
unfoldable pub sum_prices : List (BookingItem ℕ) → ℕ
sum_prices [] = 0
sum_prices (x ∷ xs) = x.unit_price + sum_prices xs

unfoldable pub check_declared_total : Option Decimal → ℕ → Result BookingError ⊤
check_declared_total none calculated = ok tt
check_declared_total (some total_amount) calculated = do
  declared ← validate_money total_amount "totalAmount"
  raise_unless (declared == calculated)
      (invalid "totalAmount must equal the sum of booking item prices")

unfoldable pub normalize_new_booking :
    (customer_id event_id : Text)
    → (reservation_id payment_method : Option Text) → List (BookingItem Decimal)
    → Option Decimal
    → Text
    → Result BookingError NewBookingRequest
normalize_new_booking customer_id event_id reservation_id payment_method items total_amount
      currency =
    do
      normalized_items ← normalize_items items
      let calculated_total = sum_prices normalized_items
      check_declared_total total_amount calculated_total
      customer ← validate_identifier customer_id "customerId" 128
      event ← validate_identifier event_id "eventId" 128
      reservation ← validate_optional_identifier reservation_id "reservationId" 128
      method ← validate_optional_identifier payment_method "paymentMethod" 40
      code ← validate_currency currency
      ok (record {
        customer_id = customer;
        event_id = event;
        reservation_id = reservation;
        payment_method = method;
        items = normalized_items;
        total_amount = calculated_total;
        currency = code;
      })

unfoldable pub validate_each_ticket : List Text → List Text → Result BookingError (List Text)
validate_each_ticket seen [] = ok []
validate_each_ticket seen (value ∷ values) = do
  ticket_id ← validate_identifier value "ticketId" 128
  raise_if (mem_text ticket_id seen)
      (BookingError.invalid_request (Message.duplicate_ticket ticket_id))
  rest ← validate_each_ticket (ticket_id ∷ seen) values
  ok (ticket_id ∷ rest)

unfoldable pub validate_ticket_ids : List Text → Result BookingError (List Text)
validate_ticket_ids values = do
  raise_unless (leb 1 (length values) && leb (length values) 50)
      (invalid "A booking must attach between 1 and 50 ticket ids")
  validate_each_ticket [] values
