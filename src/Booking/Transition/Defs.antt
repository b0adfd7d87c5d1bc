-- ===== src/Booking/Transition/Defs.antt =====
-- The commands, and the method that each calls.
use event_ticketing_soa.Common.{ℕ, Bool, Option, none, some, List, ⊤, self, lift, ◌>>=◌, ◌>>◌}
use event_ticketing_soa.Common.Text.{Text}
use event_ticketing_soa.Booking.Enums.{PaymentStatus, CompensationStatus}
use event_ticketing_soa.Booking.Values.{CompensationEvidence}
use event_ticketing_soa.Booking.Entity
use event_ticketing_soa.Booking.Entity.{Method}
use event_ticketing_soa.Booking.Transition.Applied.{validate_evidence}

pub data Transition : Type 0 where
  -- reservation_id, expected_version, expires_at, reservation_version, confirmed
  attach_reservation : Text → ℕ → Option ℕ → Option ℕ → Bool → Transition
  -- reservation_id, expected_version, reservation_version
  confirm_reservation : Text → ℕ → Option ℕ → Transition
  -- payment_id, expected_version
  start_payment : Text → ℕ → Transition
  -- payment_id, payment_status, expected_version, provider_reference, failure_code
  record_payment : Text → PaymentStatus → ℕ → Option Text → Option Text → Transition
  -- ticket_ids, expected_version
  attach_tickets : List Text → ℕ → Transition
  -- expected_version, reservation_id, payment_id, payment_status, ticket_ids, seat_confirmed,
  -- payment_captured, tickets_issued
  confirm_booking :
      ℕ
      → (reservation_id payment_id : Option Text) → Option PaymentStatus
      → Option (List Text)
      → (seat_confirmed payment_captured tickets_issued : Option Bool) → Transition
  -- failure_code, reason, expected_version, compensation_status, evidence
  fail_booking : Text → Text → ℕ → Option CompensationStatus → CompensationEvidence → Transition
  -- reason, expected_version, payment_status, compensation_status, evidence
  cancel_booking :
      Text
      → ℕ
      → Option PaymentStatus
      → Option CompensationStatus
      → CompensationEvidence
      → Transition
  -- expected_version, compensation_status, evidence, reason
  record_compensation : ℕ → CompensationStatus → CompensationEvidence → Option Text → Transition

abbrev pub expected_version : Transition → ℕ
expected_version (Transition.attach_reservation _ v _ _ _) = v
expected_version (Transition.confirm_reservation _ v _) = v
expected_version (Transition.start_payment _ v) = v
expected_version (Transition.record_payment _ _ v _ _) = v
expected_version (Transition.attach_tickets _ v) = v
expected_version (Transition.confirm_booking v _ _ _ _ _ _ _) = v
expected_version (Transition.fail_booking _ _ v _ _) = v
expected_version (Transition.cancel_booking _ v _ _ _) = v
expected_version (Transition.record_compensation v _ _ _) = v

-- `transition.apply(booking, now)`
unfoldable pub apply : Transition → ℕ → Method ⊤
apply (Transition.attach_reservation r v e w c) now = Entity.attach_reservation r v now e w c
apply (Transition.confirm_reservation r v w) now = Entity.confirm_reservation r v now w
apply (Transition.start_payment p v) now = Entity.start_payment p v now
apply (Transition.record_payment p s v r f) now = Entity.record_payment p v now (some s) none r f
apply (Transition.attach_tickets ts v) now = Entity.attach_tickets ts v now
apply (Transition.confirm_booking v r p s ts sc pc ti) now = do
  b ← self
  lift (validate_evidence r p s ts sc pc ti b)
  Entity.confirm v now
apply (Transition.fail_booking c r v s e) now = Entity.fail c r v now s (some e)
apply (Transition.cancel_booking r v p s e) now = Entity.cancel r v now p s (some e)
apply (Transition.record_compensation v s e r) now = Entity.record_compensation v now s e r
