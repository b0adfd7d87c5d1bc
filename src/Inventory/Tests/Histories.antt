-- ===== src/Inventory/Tests/Histories.antt =====
-- The history theorems on the small hall.
use event_ticketing_soa.Common.{◌≡◌, refl, some, inl, inr}
use event_ticketing_soa.Common.Rows.{In}
use event_ticketing_soa.Common.Text.{codes}
use event_ticketing_soa.Inventory.Types.{Seat, SeatStatus}
use event_ticketing_soa.Inventory.Invariant.{IsValid}
use event_ticketing_soa.Inventory.History.{
  serve, AllFollow, fresh-IsValid, serve-IsValid, serve-no_double_booking, serve-held,
  serve-refines, serve-sold,
}
use event_ticketing_soa.Inventory.Tests.Hall.{
  platform, settings, hall, hall-IsFresh, rush, held_seat, r1, item, held_hall, rush-held_hall,
}
use event_ticketing_soa.Inventory.Tests.Calls.{sold_seat, sold_hall}

serve-IsValid_example : IsValid (serve platform settings rush hall)
serve-IsValid_example = serve-IsValid platform settings rush hall (fresh-IsValid hall hall-IsFresh)

serve-no_double_booking_example : codes "r1" ≡ codes "r1"
serve-no_double_booking_example =
    serve-no_double_booking platform settings rush hall held_hall hall-IsFresh rush-held_hall
      (item (codes "A1")) (item (codes "A1")) r1 r1 (inl refl) (inl refl) (inl refl) (inl refl) refl
      refl refl refl refl refl

serve-held_example : (SeatStatus.held ≡ SeatStatus.held) × (some (codes "r1") ≡ some (codes "r1"))
serve-held_example =
    serve-held platform settings rush hall held_hall hall-IsFresh rush-held_hall (item (codes "A2"))
      r1 (held_seat (codes "A2")) (inr (inl refl)) (inl refl) (inr (inl refl))
      (record { of_reservation = refl; of_event = refl; of_seat = refl }) refl

serve-refines_example : AllFollow hall.seats (serve platform settings rush hall).seats
serve-refines_example = serve-refines platform settings rush hall

serve-sold_example :
    (t : Seat) × In t (serve platform settings rush sold_hall).seats
    × (t.event_id ≡ codes "e1")
    × (t.seat_id ≡ codes "A1")
    × (t.status ≡ SeatStatus.sold)
serve-sold_example =
    serve-sold platform settings rush sold_hall (sold_seat (codes "A1")) (inl refl) refl
