-- ===== src/Payment/Drafts.antt =====
-- The draft of a payment against the evidence of the booking.
use event_ticketing_soa.Common.{ℕ, ◌≡◌, false, Option, some, ok, arith, inl, inr, Result-cases}
use event_ticketing_soa.Common.Text.{Text, text_eq_iff}
use event_ticketing_soa.Common.Money.{Decimal}
use event_ticketing_soa.Payment.Rules.{validate_identifier, validate_money, validate_currency}
use event_ticketing_soa.Payment.Values.{
  PaymentDraft, BookingPaymentEvidence, draft_from_request, check_evidence, assert_matches,
}

assert_matches_accepts :
    (e : BookingPaymentEvidence) (b c : Text) (n : ℕ) (cur : Text)
    → assert_matches e b c n cur ≡ ok tt
    → (e.booking_id ≡ b) × (e.customer_id ≡ c) × (e.amount ≡ n) × (e.currency ≡ cur)
unfolding assert_matches
assert_matches_accepts e b c n cur h =
    ground
      (arith, text_eq_iff e.booking_id b, text_eq_iff e.customer_id c, text_eq_iff e.currency cur)

-- A request that comes with the evidence of its booking becomes a draft only if they agree: the
-- draft is for that booking and that customer, and for exactly the booking's total.
pub draft_from_request-evidence :
    (sha256 : Text → Text) (b c : Text) (d : Decimal) (cur m pr : Text) (t : Option Text)
    → (e : BookingPaymentEvidence) {draft : PaymentDraft}
    → draft_from_request sha256 b c d cur m pr t (some e) ≡ ok draft
    → (draft.booking_id ≡ e.booking_id)
      × (draft.customer_id ≡ e.customer_id)
      × (draft.amount ≡ e.amount)
      × (draft.currency ≡ e.currency)
unfolding draft_from_request check_evidence
draft_from_request-evidence sha256 b c d cur m pr t e {draft} h =
    elim (Result-cases (validate_identifier b "bookingId" 128)) [
      | inl (b', h0) ↦ elim (Result-cases (validate_identifier c "customerId" 128)) [
        | inl (c', h1) ↦ elim (Result-cases (validate_money d "amount" false)) [
          | inl (n, h2) ↦ elim (Result-cases (validate_currency cur)) [
            | inl (k, h3) ↦ ground (arith, assert_matches_accepts e b' c' n k)
            | inr (x, q) ↦ ground arith
          ]
          | inr (x, q) ↦ ground arith
        ]
        | inr (x, q) ↦ ground arith
      ]
      | inr (x, q) ↦ ground arith
    ]
