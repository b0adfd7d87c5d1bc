-- ===== src/Inventory/Tests/Retries.antt =====
-- The retry theorems on the small hall.
use event_ticketing_soa.Common.{false, ◌≡◌, refl, ok, err}
use event_ticketing_soa.Common.Text.{codes, matches_identifier, strip, lstrip, text_eq}
use event_ticketing_soa.Inventory.Errors.{SeatInventoryError}
use event_ticketing_soa.Inventory.Rules.{validate_identifier}
use event_ticketing_soa.Inventory.Payload.{RequestBody}
use event_ticketing_soa.Inventory.Commands.{confirm_seats, release_seats, extend_reservation}
use event_ticketing_soa.Inventory.Retry.{
  confirm_seats-retried, release_seats-retried, extend_reservation-retried, confirm_seats-conflict,
}
use event_ticketing_soa.Inventory.Tests.Hall.{digest, platform, reads, settings, keyed, held_hall}
use event_ticketing_soa.Inventory.Tests.Calls.{
  sold_reply, sold_hall, confirm-sold_hall, r1-identifier, free_reply, free_hall, release-free_hall,
  longer_reply, longer_hall, extend-longer_hall,
}

confirm_seats-retried_example :
    confirm_seats platform settings (keyed (codes "k3")) 900 (codes "r1") 1 sold_hall
    ≡ (ok sold_reply, sold_hall)
confirm_seats-retried_example =
    confirm_seats-retried platform settings (keyed (codes "k3")) 20 900 (codes "r1") 1 held_hall
      sold_hall sold_reply reads confirm-sold_hall

r9-identifier : validate_identifier (codes "r9 ") "reservationId" ≡ ok (codes "r9")
unfolding validate_identifier matches_identifier strip lstrip
r9-identifier = refl

digests-differ :
    text_eq
      (digest (RequestBody.confirm (codes "r1") 1))
      (digest (RequestBody.confirm (codes "r9") 1))
    ≡ false
unfolding text_eq
digests-differ = refl

confirm_seats-conflict_example :
    confirm_seats platform settings (keyed (codes "k3")) 30 (codes "r9 ") 1 sold_hall
    ≡ (err SeatInventoryError.idempotency_conflict, sold_hall)
confirm_seats-conflict_example =
    confirm_seats-conflict platform settings (keyed (codes "k3")) 20 30 (codes "r1") (codes "r1")
      (codes "r9 ") (codes "r9") 1 1 held_hall sold_hall sold_reply reads r1-identifier
      r9-identifier digests-differ confirm-sold_hall

release_seats-retried_example :
    release_seats platform settings
      (keyed (codes "k3"))
      900
      (codes "r1")
      (codes "CANCELLED")
      free_hall
    ≡ (ok free_reply, free_hall)
release_seats-retried_example =
    release_seats-retried platform settings (keyed (codes "k3")) 20 900 (codes "r1")
      (codes "CANCELLED") held_hall free_hall free_reply reads release-free_hall

extend_reservation-retried_example :
    extend_reservation platform settings (keyed (codes "k3")) 300 (codes "r1") 1 120 longer_hall
    ≡ (ok longer_reply, longer_hall)
extend_reservation-retried_example =
    extend_reservation-retried platform settings (keyed (codes "k3")) 20 300 (codes "r1") 1 120
      held_hall longer_hall longer_reply reads extend-longer_hall
