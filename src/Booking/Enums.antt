-- ===== src/Booking/Enums.antt =====
-- services/booking-service/app/domain/enums.py: the enumerations of the booking aggregate, each
-- with the equality that the code's tests and set literals use.
use event_ticketing_soa.Common.{Bool, true, false, Eq}

pub data BookingStatus : Type 0 where
  pending seat_reserved payment_processing confirmed failed cancelled compensation_pending :
      BookingStatus

pub data PaymentStatus : Type 0 where
  pending processing succeeded failed unknown refund_pending refunded : PaymentStatus

pub data ReservationEvidenceStatus : Type 0 where
  pending reserved confirmed release_pending released unknown : ReservationEvidenceStatus

pub data CompensationStatus : Type 0 where
  not_required pending completed failed : CompensationStatus

pub data CompensationAction : Type 0 where
  none release_reservation refund_payment release_and_refund reconcile_payment : CompensationAction

abbrev pub booking_status_eq : BookingStatus → BookingStatus → Bool
booking_status_eq BookingStatus.pending BookingStatus.pending = true
booking_status_eq BookingStatus.seat_reserved BookingStatus.seat_reserved = true
booking_status_eq BookingStatus.payment_processing BookingStatus.payment_processing = true
booking_status_eq BookingStatus.confirmed BookingStatus.confirmed = true
booking_status_eq BookingStatus.failed BookingStatus.failed = true
booking_status_eq BookingStatus.cancelled BookingStatus.cancelled = true
booking_status_eq BookingStatus.compensation_pending BookingStatus.compensation_pending = true
booking_status_eq _ _ = false

instance abbrev pub booking_status : Eq BookingStatus
booking_status = record { beq = booking_status_eq }

abbrev pub payment_status_eq : PaymentStatus → PaymentStatus → Bool
payment_status_eq PaymentStatus.pending PaymentStatus.pending = true
payment_status_eq PaymentStatus.processing PaymentStatus.processing = true
payment_status_eq PaymentStatus.succeeded PaymentStatus.succeeded = true
payment_status_eq PaymentStatus.failed PaymentStatus.failed = true
payment_status_eq PaymentStatus.unknown PaymentStatus.unknown = true
payment_status_eq PaymentStatus.refund_pending PaymentStatus.refund_pending = true
payment_status_eq PaymentStatus.refunded PaymentStatus.refunded = true
payment_status_eq _ _ = false

instance abbrev pub payment_status : Eq PaymentStatus
payment_status = record { beq = payment_status_eq }

abbrev pub reservation_status_eq : ReservationEvidenceStatus → ReservationEvidenceStatus → Bool
reservation_status_eq ReservationEvidenceStatus.pending ReservationEvidenceStatus.pending = true
reservation_status_eq ReservationEvidenceStatus.reserved ReservationEvidenceStatus.reserved = true
reservation_status_eq ReservationEvidenceStatus.confirmed ReservationEvidenceStatus.confirmed = true
reservation_status_eq ReservationEvidenceStatus.release_pending
      ReservationEvidenceStatus.release_pending =
    true
reservation_status_eq ReservationEvidenceStatus.released ReservationEvidenceStatus.released = true
reservation_status_eq ReservationEvidenceStatus.unknown ReservationEvidenceStatus.unknown = true
reservation_status_eq _ _ = false

instance abbrev pub reservation_status : Eq ReservationEvidenceStatus
reservation_status = record { beq = reservation_status_eq }

abbrev pub compensation_status_eq : CompensationStatus → CompensationStatus → Bool
compensation_status_eq CompensationStatus.not_required CompensationStatus.not_required = true
compensation_status_eq CompensationStatus.pending CompensationStatus.pending = true
compensation_status_eq CompensationStatus.completed CompensationStatus.completed = true
compensation_status_eq CompensationStatus.failed CompensationStatus.failed = true
compensation_status_eq _ _ = false

instance abbrev pub compensation_status : Eq CompensationStatus
compensation_status = record { beq = compensation_status_eq }

abbrev pub compensation_action_eq : CompensationAction → CompensationAction → Bool
compensation_action_eq CompensationAction.none CompensationAction.none = true
compensation_action_eq CompensationAction.release_reservation
      CompensationAction.release_reservation =
    true
compensation_action_eq CompensationAction.refund_payment CompensationAction.refund_payment = true
compensation_action_eq CompensationAction.release_and_refund CompensationAction.release_and_refund =
    true
compensation_action_eq CompensationAction.reconcile_payment CompensationAction.reconcile_payment =
    true
compensation_action_eq _ _ = false

instance abbrev pub compensation_action : Eq CompensationAction
compensation_action = record { beq = compensation_action_eq }
