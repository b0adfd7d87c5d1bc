-- ===== src/Inventory/Tests/Requests.antt =====
-- What is read, written and answered, on the small hall.
use event_ticketing_soa.Common.{true, ◌≡◌, refl, [], ◌∷◌, ok, ◌↔◌}
use event_ticketing_soa.Common.Rows.{In, select, any}
use event_ticketing_soa.Common.Text.{
  Text, codes, matches_identifier, strip, lstrip, text_eq, text_le, mem_text,
}
use event_ticketing_soa.Inventory.Rules.{
  validated, validate_identifier, validate_given, normalize_seat_ids, validate_each, sort_unique,
  insert_text,
}
use event_ticketing_soa.Inventory.Tables.{lock_seats}
use event_ticketing_soa.Inventory.Payload.{
  reservation_to_payload, reservation_from_payload, reservation_from_payload-reservation_to_payload,
}
use event_ticketing_soa.Inventory.Commands.{
  required_key, missing_seats, check_missing, check_availability, availability, AvailabilityResult,
}
use event_ticketing_soa.Inventory.SeatIds.{IsSelection, normalize_seat_ids-IsSelection}
use event_ticketing_soa.Inventory.Offers.{Offered, check_availability-Offered}
use event_ticketing_soa.Inventory.Tests.Hall.{platform, reads, keyed, hall, both, reply}

both-normalized : normalize_seat_ids both ≡ ok (codes "A1" ∷ codes "A2" ∷ [])
unfolding normalize_seat_ids validate_each validate_identifier matches_identifier strip lstrip
    sort_unique insert_text text_eq text_le
both-normalized = refl

normalize_seat_ids-IsSelection_example : IsSelection both (codes "A1" ∷ codes "A2" ∷ [])
normalize_seat_ids-IsSelection_example =
    normalize_seat_ids-IsSelection both (codes "A1" ∷ codes "A2" ∷ []) both-normalized

reservation_from_payload-reservation_to_payload_example :
    reservation_from_payload platform (reservation_to_payload platform reply) ≡ ok reply
reservation_from_payload-reservation_to_payload_example =
    reservation_from_payload-reservation_to_payload platform reads reply

abbrev answer : AvailabilityResult
answer = record {
  event_id = codes "e1";
  available = true;
  available_seat_ids = codes "A1" ∷ codes "A2" ∷ [];
  unavailable_seat_ids = [];
  checked_at = 5;
}

e1-identifier : validate_identifier (codes "e1") "eventId" ≡ ok (codes "e1")
unfolding validate_identifier matches_identifier strip lstrip
e1-identifier = refl

both-available :
    check_availability (keyed (codes "k3")) 5 (codes "e1") both hall ≡ (ok answer, hall)
unfolding check_availability availability normalize_seat_ids validate_each lock_seats missing_seats
    check_missing mem_text select any sort_unique insert_text text_le validated validate_identifier
    matches_identifier strip lstrip text_eq validate_given required_key
both-available = refl

check_availability-Offered_example :
    (hall ≡ hall)
    × ((true ≡ true)
        ↔ ((id : Text) → In id (codes "A1" ∷ codes "A2" ∷ []) → Offered hall (codes "e1") id))
check_availability-Offered_example =
    check_availability-Offered (keyed (codes "k3")) 5 (codes "e1") (codes "e1") both
      (codes "A1" ∷ codes "A2" ∷ []) hall hall answer e1-identifier both-normalized both-available
