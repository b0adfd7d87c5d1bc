-- ===== src/Payment/Invariant/Defs.antt =====
-- The statement of the invariant: what is captured and refunded at each status.
use event_ticketing_soa.Common.{
  ℕ, ◌<◌, ◌≤◌, ◌+◌, ◌≡◌, Bool, true, false, Option, none, some, [], ◌∷◌, one_of, Ensures, Result,
}
use event_ticketing_soa.Payment.Enums.{PaymentStatus, status}
use event_ticketing_soa.Payment.Errors.{PaymentError}
use event_ticketing_soa.Payment.Entity.{Payment}

-- The amounts at a status that is final or that the provider may move.
abbrev pub ByStatus : PaymentStatus → (amount captured refunded : ℕ) → Type 0
ByStatus PaymentStatus.pending a c r = (c ≡ 0) × (r ≡ 0)
ByStatus PaymentStatus.authorized a c r = (c ≡ 0) × (r ≡ 0)
ByStatus PaymentStatus.failed a c r = (c ≡ 0) × (r ≡ 0)
ByStatus PaymentStatus.cancelled a c r = (c ≡ 0) × (r ≡ 0)
ByStatus PaymentStatus.captured a c r = (c ≡ a) × (r ≡ 0)
ByStatus PaymentStatus.partially_refunded a c r = (c ≡ a) × (0 < r) × (r < c)
ByStatus PaymentStatus.refunded a c r = (c ≡ a) × (r ≡ a)
ByStatus PaymentStatus.unknown a c r = false ≡ true

-- A status that a provider call may leave without an answer.
abbrev pub is_open : PaymentStatus → Bool
is_open s = one_of s (
    PaymentStatus.pending ∷ PaymentStatus.authorized ∷ PaymentStatus.captured
    ∷ PaymentStatus.partially_refunded ∷ [])

-- At UNKNOWN the amounts are those of the last stable status.
abbrev pub Stable : PaymentStatus → Option PaymentStatus → (amount captured refunded : ℕ) → Type 0
Stable PaymentStatus.unknown none a c r = ByStatus PaymentStatus.unknown a c r
Stable PaymentStatus.unknown (some s) a c r = (is_open s ≡ true) × ByStatus s a c r
Stable s _ a c r = ByStatus s a c r

pub record IsValid (p : Payment) : Type 0 where
  pub positive : 0 < p.amount
  pub stable : Stable p.status p.last_stable_status p.amount p.captured_amount p.refunded_amount

-- A call that returns leaves a valid payment of the same amount, with no less captured and
-- `n` more refunded.
abbrev pub Moves : {A : Type 0} → ℕ → Payment → Result PaymentError A × Payment → Type 0
Moves n p = Ensures (λ _ p'.
    IsValid p'
    × (p'.amount ≡ p.amount)
    × (p.captured_amount ≤ p'.captured_amount)
    × (p'.refunded_amount ≡ p.refunded_amount + n))

-- What a write of references, codes and times leaves alone.
pub record SameMoney (p p' : Payment) : Type 0 where
  pub same_status : p'.status ≡ p.status
  pub same_stable : p'.last_stable_status ≡ p.last_stable_status
  pub same_amount : p'.amount ≡ p.amount
  pub same_captured : p'.captured_amount ≡ p.captured_amount
  pub same_refunded : p'.refunded_amount ≡ p.refunded_amount
