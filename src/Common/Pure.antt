-- ===== src/Common/Pure.antt =====
-- `do` blocks over results with no state: functions that return or raise.
use mathlib.Core.Bool.{Bool, true, false}
use event_ticketing_soa.Common.Effect.{⊤, Result, ok, err}

infixl 5 ◌>>=◌
abbrev pub ◌>>=◌ : {E A B : Type 0} → Result E A → (A → Result E B) → Result E B
ok a >>= f = f a
err e >>= f = err e

infixl 5 ◌>>◌
abbrev pub ◌>>◌ : {E B : Type 0} → Result E ⊤ → Result E B → Result E B
m >> k = m >>= λ _. k

abbrev pub raise_if : {E : Type 0} → Bool → E → Result E ⊤
raise_if true e = err e
raise_if false e = ok tt

abbrev pub raise_unless : {E : Type 0} → Bool → E → Result E ⊤
raise_unless true e = ok tt
raise_unless false e = err e
