-- ===== src/Payment/Minor.antt =====
-- Validated amounts, and amounts in minor units: `amount_from_minor` and `amount_to_minor` of
-- rules.py.
use event_ticketing_soa.Common.{
  ℕ, zero, suc, String, ◌<◌, ◌+◌, ◌*◌, ◌^◌, ◌≡◌, ◌⊎◌, inl, inr, true, false, ok, arith, refl,
  Result-cases,
}
use native.Mathlib.Nat.{one-le-pow, mul-pos}
use event_ticketing_soa.Common.Text.{Text}
use event_ticketing_soa.Common.Money.{Decimal, equals_cents, is_zero, quantize_cents}
use event_ticketing_soa.Payment.Rules.{
  validate_money, currency_exponent, exponent_of, validate_currency, amount_from_minor,
  amount_to_minor,
}

mul_zero : (c m : ℕ) → 0 ≡ c * m → 0 < m → c ≡ 0
mul_zero zero m h k = refl
mul_zero (suc c) m h k = ground (arith, mul-pos {m = suc c} {n = m} (omega arith) k)

equals_cents-zero : (d : Decimal) → equals_cents d 0 ≡ true → is_zero d ≡ true
unfolding equals_cents
equals_cents-zero Decimal.special h = ground arith
equals_cents-zero (Decimal.scaled s c k) h =
    ground (arith, mul_zero c (10 ^ (k + 2)), one-le-pow (k + 2) 10 (omega arith))
equals_cents-zero (Decimal.fraction s c k) h = ground arith

pub validate_money_positive :
    (d : Decimal) (f : String) {n : ℕ} → validate_money d f false ≡ ok n → 0 < n
unfolding validate_money
validate_money_positive d f h = ground (arith, equals_cents-zero d)

-- An amount of whole cents is accepted as it is.
validate_money_cents :
    (n : ℕ) (f : String)
    → 0 < n
    → n < 1000000000000000000
    → validate_money (Decimal.fraction false n 2) f false ≡ ok n
unfolding validate_money quantize_cents equals_cents
validate_money_cents n f h k = ground arith

validate_money_minor :
    (n e : ℕ) (f : String) {m : ℕ}
    → (e ≡ 0) ⊎ (e ≡ 2)
    → validate_money (Decimal.fraction false n e) f false ≡ ok m
    → (m * 10 ^ e ≡ n * 100) × (m < 1000000000000000000)
unfolding validate_money quantize_cents equals_cents
validate_money_minor n e f h k = ground arith

exponent_of-cases : (c : Text) → (exponent_of c ≡ 0) ⊎ (exponent_of c ≡ 2)
unfolding exponent_of
exponent_of-cases c = ground arith

-- An amount that is read from minor units is written back as the same number of minor units, for
-- every currency that the service accepts, whether its exponent is zero or two.
pub amount_to_minor-amount_from_minor :
    (n : ℕ) (currency : Text) {cents : ℕ}
    → amount_from_minor n currency ≡ ok cents
    → amount_to_minor (Decimal.fraction false cents 2) currency ≡ ok n
unfolding amount_from_minor amount_to_minor currency_exponent
amount_to_minor-amount_from_minor n currency {cents} h =
    elim (Result-cases (validate_currency currency)) [
      | inl (c, k) ↦
          elim (Result-cases
            (validate_money (Decimal.fraction false n (exponent_of c)) "amountMinor" false)) [
              | inl (m, r) ↦ ground (
                arith,
                exponent_of-cases c,
                validate_money_minor n (exponent_of c) "amountMinor" (exponent_of-cases c) r,
                validate_money_positive (Decimal.fraction false n (exponent_of c)) "amountMinor" r,
                validate_money_cents m "amount",
              )
              | inr (x, r) ↦ ground arith
            ]
      | inr (x, k) ↦ ground arith
    ]
