-- ===== src/Common/Money.antt =====
-- Python's `Decimal` as far as the services read it, and `quantize(Decimal("0.01"))` in the
-- default context (28 digits, half to even). A validated amount is its number of cents.
use Prim.Native.Nat.{ℕ, ◌+◌, ◌-◌, ◌*◌, ◌/◌, ◌%◌, ◌^◌}
use mathlib.Core.Bool.{Bool, true, false, ◌&&◌}
use mathlib.Core.Option.{Option, none, some}
use event_ticketing_soa.Common.Tests.{leb, ltb, ◌==◌, if◌then◌else◌}

-- A NaN or an infinity; coefficient * 10 ^ k; coefficient / 10 ^ k. The Boolean is the sign, true
-- for a minus.
pub data Decimal : Type 0 where
  special : Decimal
  scaled : Bool → ℕ → ℕ → Decimal
  fraction : Bool → ℕ → ℕ → Decimal

abbrev pub is_finite : Decimal → Bool
is_finite Decimal.special = false
is_finite _ = true

-- `value < 0`, of a finite number.
abbrev pub is_negative : Decimal → Bool
is_negative Decimal.special = false
is_negative (Decimal.scaled sign c k) = sign && ltb 0 c
is_negative (Decimal.fraction sign c k) = sign && ltb 0 c

abbrev pub is_zero : Decimal → Bool
is_zero Decimal.special = false
is_zero (Decimal.scaled sign c k) = c == 0
is_zero (Decimal.fraction sign c k) = c == 0

-- n / d rounded half to even.
pub round_half_even : ℕ → ℕ → ℕ
round_half_even n d =
    let q = n / d in
    let r = n % d in if ltb (2 * r) d then q else if ltb d (2 * r) then q + 1 else q + q % 2

-- The magnitude of `value.quantize(Decimal("0.01"))` in cents; `none` is `InvalidOperation`.
unfoldable pub quantize_cents : Decimal → Option ℕ
unfolding round_half_even
quantize_cents Decimal.special = none
quantize_cents (Decimal.scaled sign c k) =
    let n = c * 10 ^ (k + 2) in if ltb n (10 ^ 28) then some n else none
quantize_cents (Decimal.fraction sign c k) =
    let n = if leb k 2 then c * 10 ^ (2 - k) else round_half_even c (10 ^ (k - 2)) in
    if ltb n (10 ^ 28) then some n else none

-- `normalized == value`, of magnitudes: n cents are the value.
unfoldable pub equals_cents : Decimal → ℕ → Bool
equals_cents Decimal.special n = false
equals_cents (Decimal.scaled sign c k) n = n == c * 10 ^ (k + 2)
equals_cents (Decimal.fraction sign c k) n = n * 10 ^ k == c * 100
