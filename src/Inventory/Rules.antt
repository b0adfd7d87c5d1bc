-- ===== src/Inventory/Rules.antt =====
-- services/seat-inventory-service/app/domain/rules.py, and `RequestContext.validated` of
-- application/common.py.
use event_ticketing_soa.Common.{
  ℕ, String, Bool, false, ◌&&◌, not, Option, none, some, List, [], ◌∷◌, Result, ok, err, ⊤,
  if◌then◌else◌, ltb, leb, ◌==◌, length,
}
use event_ticketing_soa.Common.Pure.{◌>>=◌, ◌>>◌, raise_if, raise_unless}
use event_ticketing_soa.Common.Text.{Text, strip, matches_identifier, codes, text_eq, text_le}
use event_ticketing_soa.Inventory.Errors.{SeatInventoryError, Message, invalid}

unfoldable pub validate_identifier : Text → String → Result SeatInventoryError Text
validate_identifier value field_name =
    let normalized = strip value in
    if matches_identifier normalized
    then ok normalized
    else err (SeatInventoryError.invalid_request (Message.unsafe_identifier field_name))

-- `{validate_identifier(item, "seatId") for item in seat_ids}`, as a list in the order given.
unfoldable pub validate_each : List Text → Result SeatInventoryError (List Text)
validate_each [] = ok []
validate_each (item ∷ rest) = do
  normalized ← validate_identifier item "seatId"
  others ← validate_each rest
  ok (normalized ∷ others)

-- One element into a sorted list of distinct texts.
unfoldable pub insert_text : Text → List Text → List Text
insert_text t [] = t ∷ []
insert_text t (x ∷ xs) =
    let rest = insert_text t xs in
    if text_eq t x then x ∷ xs else if text_le t x then t ∷ x ∷ xs else x ∷ rest

-- `sorted(set(...))`
unfoldable pub sort_unique : List Text → List Text
unfolding insert_text
sort_unique [] = []
sort_unique (t ∷ ts) = insert_text t (sort_unique ts)

unfoldable pub normalize_seat_ids : List Text → Result SeatInventoryError (List Text)
normalize_seat_ids seat_ids = do
  valid ← validate_each seat_ids
  let normalized = sort_unique valid
  raise_if (length normalized == 0) (invalid "At least one seatId is required")
  raise_unless (length normalized == length seat_ids)
      (invalid "seatIds must not contain duplicates")
  raise_if (ltb 50 (length normalized)) (invalid "A reservation may contain at most 50 seats")
  ok normalized

unfoldable pub validate_hold_seconds : ℕ → ℕ → ℕ → Result SeatInventoryError ℕ
validate_hold_seconds value minimum maximum =
    if leb minimum value && leb value maximum
    then ok value
    else err
        (SeatInventoryError.invalid_request (Message.not_between "holdSeconds" minimum maximum))

unfoldable pub validate_extension_seconds : ℕ → ℕ → Result SeatInventoryError ℕ
validate_extension_seconds value maximum =
    if leb 1 value && leb value maximum
    then ok value
    else err (SeatInventoryError.invalid_request (Message.not_between "extensionSeconds" 1 maximum))

pub record RequestContext : Type 0 where
  pub correlation_id : Text
  pub caller_service : Text
  pub idempotency_key : Option Text
  pub actor_id : Option Text
  pub schema_version : Text

-- `if value:` of an optional text.
abbrev pub is_given : Option Text → Bool
is_given none = false
is_given (some t) = not (length t == 0)

-- `if value: validate_identifier(value, field_name)`
unfoldable pub validate_given : Option Text → String → Result SeatInventoryError ⊤
validate_given none field_name = ok tt
validate_given (some t) field_name =
    if length t == 0 then ok tt else (validate_identifier t field_name >>= λ _. ok tt)

unfoldable pub validated : Bool → RequestContext → Result SeatInventoryError ⊤
unfolding validate_given
validated require_idempotency c = do
  validate_identifier c.correlation_id "correlationId" >>= λ _. ok tt
  validate_identifier c.caller_service "callerService" >>= λ _. ok tt
  validate_given c.actor_id "actorId"
  raise_unless (text_eq c.schema_version (codes "1")) (invalid "schemaVersion must be 1")
  raise_if (require_idempotency && not (is_given c.idempotency_key))
      (invalid "idempotencyKey is required for this operation")
  validate_given c.idempotency_key "idempotencyKey"
