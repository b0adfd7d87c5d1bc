-- ===== src/Booking/Service/Stale.antt =====
-- Optimistic concurrency: commands that expect another version than the booking has.
use event_ticketing_soa.Common.{
  ◌∙◌, ℕ, Bool, true, false, ◌+◌, ◌≡◌, ◌≢◌, Result, ok, err, ⊤, arith, inl, inr, Result-cases,
}
use native.Mathlib.Decide.{ℕ_discrete}
use event_ticketing_soa.Booking.Errors.{BookingError}
use event_ticketing_soa.Booking.Entity.{
  Booking, attach_reservation, confirm_reservation, start_payment, record_payment, attach_tickets,
  confirm, fail, cancel, record_compensation, check_version, attach_reservation_checks,
  confirm_reservation_checks, start_payment_checks, record_payment_checks, attach_tickets_checks,
  confirm_checks, fail_checks, cancel_checks, record_compensation_checks,
}
use event_ticketing_soa.Booking.Transition.{
  Transition, apply, expected_version, validate_evidence, is_already_applied, execute, commit,
}
use event_ticketing_soa.Booking.Service.Commands.{apply-Moves}

-- The call raises, and has written nothing.
abbrev pub Refused : Booking → Result BookingError ⊤ × Booking → Type 0
Refused b r = (x : BookingError) × (r ≡ (err x, b))

check_version_stale :
    (v : ℕ) (b : Booking)
    → b.resource_version ≢ v
    → check_version v b ≡ err (BookingError.version_conflict v b.resource_version)
unfolding check_version
check_version_stale v b h = ground arith

-- The aggregate's method that expects another version is refused before it writes.
apply_stale :
    (t : Transition) (now : ℕ) (b : Booking)
    → b.resource_version ≢ expected_version t
    → Refused b (apply t now b)
unfolding apply attach_reservation confirm_reservation start_payment record_payment attach_tickets
    confirm fail cancel record_compensation attach_reservation_checks confirm_reservation_checks
    start_payment_checks record_payment_checks attach_tickets_checks confirm_checks fail_checks
    cancel_checks record_compensation_checks
apply_stale (Transition.attach_reservation r v e w c) now b h =
    (BookingError.version_conflict v b.resource_version, rw (check_version_stale v b h))
apply_stale (Transition.confirm_reservation r v w) now b h =
    (BookingError.version_conflict v b.resource_version, rw (check_version_stale v b h))
apply_stale (Transition.start_payment p v) now b h =
    (BookingError.version_conflict v b.resource_version, rw (check_version_stale v b h))
apply_stale (Transition.record_payment p s v r f) now b h =
    (BookingError.version_conflict v b.resource_version, rw (check_version_stale v b h))
apply_stale (Transition.attach_tickets ts v) now b h =
    (BookingError.version_conflict v b.resource_version, rw (check_version_stale v b h))
apply_stale (Transition.confirm_booking v r p s ts sc pc ti) now b h =
    elim (Result-cases (validate_evidence r p s ts sc pc ti b)) [
      | inl (x, e) ↦
          (BookingError.version_conflict v b.resource_version, rw (e, check_version_stale v b h))
      | inr (x, e) ↦ (x, rw e)
    ]
apply_stale (Transition.fail_booking c r v s e) now b h =
    (BookingError.version_conflict v b.resource_version, rw (check_version_stale v b h))
apply_stale (Transition.cancel_booking r v p s e) now b h =
    (BookingError.version_conflict v b.resource_version, rw (check_version_stale v b h))
apply_stale (Transition.record_compensation v s e r) now b h =
    (BookingError.version_conflict v b.resource_version, rw (check_version_stale v b h))

-- A command that returns was given the version that the booking had.
pub apply-expected_version :
    (t : Transition) (now : ℕ) (b : Booking)
    → (apply t now b).0 ≡ ok tt
    → b.resource_version ≡ expected_version t
apply-expected_version t now b h = elim (ℕ_discrete b.resource_version (expected_version t)) [
  | yes e ↦ e
  | no n ↦ let (x, r) = apply_stale t now b n in cc
]

-- Of two commands that expect the same version, whatever they are, the second is refused and
-- changes nothing once the first has returned.
pub apply_once :
    (t u : Transition) (now later : ℕ) (b : Booking)
    → expected_version u ≡ expected_version t
    → (apply t now b).0 ≡ ok tt
    → Refused (apply t now b).1 (apply u later (apply t now b).1)
apply_once t u now later b same h =
    apply_stale u later (apply t now b).1
      (λ e. omega (arith, bumped, e, same, apply-expected_version t now b h))
  where
    bumped : (apply t now b).1.resource_version ≡ b.resource_version + 1
    bumped = ground (arith, apply-Moves t now b)

-- The evidence that a confirmation carries; no other command has any to compare first.
abbrev pub carried_evidence : Transition → Booking → Result BookingError ⊤
carried_evidence (Transition.confirm_booking v r p s ts sc pc ti) b =
    validate_evidence r p s ts sc pc ti b
carried_evidence _ b = ok tt

-- The answer to a command that is not applied yet.
abbrev pub conflict_or : Result BookingError ⊤ → ℕ → Booking → Result BookingError Booking
conflict_or (err e) v b = err e
conflict_or (ok _) v b = err (BookingError.version_conflict v b.resource_version)

-- The answer to a stale command, by what is found of it.
abbrev pub stale_reply :
    Result BookingError Bool → Result BookingError ⊤ → ℕ → Booking → Result BookingError Booking
stale_reply (err e) evidence v b = err e
stale_reply (ok true) evidence v b = ok b
stale_reply (ok false) evidence v b = conflict_or evidence v b

apply_conflict :
    (t : Transition) (now : ℕ) (b : Booking)
    → b.resource_version ≢ expected_version t
    → commit b (apply t now b) ≡ (conflict_or (carried_evidence t b) (expected_version t) b, b)
unfolding apply attach_reservation confirm_reservation start_payment record_payment attach_tickets
    confirm fail cancel record_compensation attach_reservation_checks confirm_reservation_checks
    start_payment_checks record_payment_checks attach_tickets_checks confirm_checks fail_checks
    cancel_checks record_compensation_checks
apply_conflict (Transition.attach_reservation r v e w c) now b h = rw (check_version_stale v b h)
apply_conflict (Transition.confirm_reservation r v w) now b h = rw (check_version_stale v b h)
apply_conflict (Transition.start_payment p v) now b h = rw (check_version_stale v b h)
apply_conflict (Transition.record_payment p s v r f) now b h = rw (check_version_stale v b h)
apply_conflict (Transition.attach_tickets ts v) now b h = rw (check_version_stale v b h)
apply_conflict (Transition.confirm_booking v r p s ts sc pc ti) now b h =
    elim (Result-cases (validate_evidence r p s ts sc pc ti b)) [
      | inl (x, e) ↦ rw (e, check_version_stale v b h)
      | inr (x, e) ↦ rw e
    ]
apply_conflict (Transition.fail_booking c r v s e) now b h = rw (check_version_stale v b h)
apply_conflict (Transition.cancel_booking r v p s e) now b h = rw (check_version_stale v b h)
apply_conflict (Transition.record_compensation v s e r) now b h = rw (check_version_stale v b h)

-- What the command returns, by what is found of it.
execute-commit :
    (t : Transition) (now : ℕ) (b : Booking)
    → is_already_applied t b ≡ ok false
    → execute t now b ≡ commit b (apply t now b)
unfolding execute
execute-commit t now b h = rw (execute, h)

-- A command that expects another version than the booking has writes nothing. If its outcome is
-- recorded already it returns the booking as it stands; if the booking records another outcome, or
-- the evidence that a confirmation carries is not the booking's, it raises that error; otherwise it
-- raises the version conflict, with the version that it expected and the booking's.
pub execute_stale :
    (t : Transition) (now : ℕ) (b : Booking)
    → b.resource_version ≢ expected_version t
    → execute t now b
      ≡ (stale_reply (is_already_applied t b) (carried_evidence t b) (expected_version t) b, b)
unfolding execute
execute_stale t now b h = elim (Result-cases (is_already_applied t b)) [
  | inr (e, k) ↦ rw (execute, k)
  | inl (true, k) ↦ rw (execute, k)
  | inl (false, k) ↦ execute-commit t now b k ∙ apply_conflict t now b h ∙ rw k
]
