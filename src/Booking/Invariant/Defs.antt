-- ===== src/Booking/Invariant/Defs.antt =====
-- The statement of the invariant.
use event_ticketing_soa.Common.{
  ℕ, Option, ◌≤◌, ◌≡◌, Bool, true, false, ◌&&◌, ◌||◌, not, none, some, [], ◌∷◌, one_of, is_some,
  length, if◌then◌else◌,
}
use event_ticketing_soa.Booking.Enums.{
  BookingStatus, PaymentStatus, ReservationEvidenceStatus, CompensationStatus, CompensationAction,
  payment_status, reservation_status, compensation_status, compensation_action_eq, booking_status,
  reservation_status_eq, payment_status_eq,
}
use event_ticketing_soa.Booking.Entity.{
  Booking, release_required, refund_required, is_unresolved, releases, refunds,
}

-- The recorded action covers what is owed: it is to reconcile exactly when the payment's outcome
-- is open, and otherwise it releases and refunds wherever a release or a refund is owed, and asks
-- for neither but where it is owed or done.
unfoldable pub covers : CompensationAction → PaymentStatus → ReservationEvidenceStatus → Bool
unfolding release_required refund_required is_unresolved
covers a p r =
    if is_unresolved p
    then compensation_action_eq a CompensationAction.reconcile_payment
    else not (compensation_action_eq a CompensationAction.reconcile_payment)
      && (if releases a
          then release_required r || reservation_status_eq r ReservationEvidenceStatus.released
          else not (release_required r))
      && (if refunds a
          then refund_required p || payment_status_eq p PaymentStatus.refunded
          else not (refund_required p))

-- No payment was taken, or it was paid back; no seat was taken, or it was released.
abbrev pub is_settled_payment : PaymentStatus → Bool
is_settled_payment p =
    one_of p (PaymentStatus.pending ∷ PaymentStatus.failed ∷ PaymentStatus.refunded ∷ [])

abbrev pub is_settled_reservation : ReservationEvidenceStatus → Bool
is_settled_reservation r =
    one_of r (ReservationEvidenceStatus.pending ∷ ReservationEvidenceStatus.released ∷ [])

unfoldable pub owes_nothing : PaymentStatus → ReservationEvidenceStatus → Bool
owes_nothing p r = is_settled_payment p && is_settled_reservation r

abbrev pub is_closing : BookingStatus → Bool
is_closing s = one_of s (BookingStatus.failed ∷ BookingStatus.cancelled ∷ [])

-- A seat is held or sold for the booking.
abbrev pub is_seated : ReservationEvidenceStatus → Bool
is_seated r =
    one_of r (ReservationEvidenceStatus.reserved ∷ ReservationEvidenceStatus.confirmed ∷ [])

-- A payment that was started, and that no refund has touched.
abbrev pub is_started : PaymentStatus → Bool
is_started p = one_of p (
    PaymentStatus.processing ∷ PaymentStatus.succeeded ∷ PaymentStatus.failed
    ∷ PaymentStatus.unknown ∷ [])

abbrev pub is_target : Option BookingStatus → Bool
is_target (some s) = is_closing s
is_target none = false

abbrev pub is_open : CompensationStatus → Bool
is_open c = one_of c (CompensationStatus.pending ∷ CompensationStatus.failed ∷ [])

abbrev pub is_closed : CompensationStatus → Bool
is_closed c = one_of c (CompensationStatus.not_required ∷ CompensationStatus.completed ∷ [])

-- By status: the payment and the reservation, the state, action and target of the compensation,
-- whether a payment was started, and the numbers of tickets and of items.
abbrev pub ByStatus :
    BookingStatus
    → PaymentStatus
    → ReservationEvidenceStatus
    → CompensationStatus
    → CompensationAction
    → Option BookingStatus
    → Bool
    → ℕ
    → ℕ
    → Type 0
ByStatus BookingStatus.pending p r c a t paid tickets items =
    (p ≡ PaymentStatus.pending) × (r ≡ ReservationEvidenceStatus.pending)
ByStatus BookingStatus.seat_reserved p r c a t paid tickets items =
    (p ≡ PaymentStatus.pending) × (is_seated r ≡ true)
ByStatus BookingStatus.payment_processing p r c a t paid tickets items =
    (is_seated r ≡ true) × (paid ≡ true) × (is_started p ≡ true)
ByStatus BookingStatus.confirmed p r c a t paid tickets items =
    (r ≡ ReservationEvidenceStatus.confirmed)
    × (p ≡ PaymentStatus.succeeded)
    × (paid ≡ true)
    × (tickets ≡ items)
ByStatus BookingStatus.compensation_pending p r c a t paid tickets items =
    (covers a p r ≡ true) × (is_target t ≡ true) × (is_open c ≡ true)
ByStatus BookingStatus.failed p r c a t paid tickets items =
    (owes_nothing p r ≡ true) × (is_closed c ≡ true)
ByStatus BookingStatus.cancelled p r c a t paid tickets items =
    (owes_nothing p r ≡ true) × (is_closed c ≡ true)

pub record IsValid (b : Booking) : Type 0 where
  pub versioned : 1 ≤ b.resource_version
  -- What must be released has an identifier to release it by.
  pub named : release_required b.reservation_status ≡ true → is_some b.reservation_id ≡ true
  pub by_status :
      ByStatus b.status b.payment_status b.reservation_status b.compensation_status
        b.compensation_action b.intended_terminal_status
        (is_some b.payment_id)
        (length b.ticket_ids)
        (length b.items)
