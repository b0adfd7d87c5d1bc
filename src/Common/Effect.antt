-- ===== src/Common/Effect.antt =====
-- A method call on a mutable object: it reads and writes the object, and returns or raises. The
-- object comes back after a raise too, since what a method has written stays written.
use mathlib.Core.Path.{◌≡◌, refl}
use mathlib.Core.Logic.{◌⊎◌, inl, inr}
use mathlib.Core.Bool.{Bool, true, false}
use mathlib.Core.Option.{Option, none, some}

pub data Result (E A : Type 0) : Type 0 where
  ok : A → Result E A
  err : E → Result E A

pub Result-cases :
    {E A : Type 0} (r : Result E A) → ((a : A) × (r ≡ ok a)) ⊎ ((e : E) × (r ≡ err e))
Result-cases (ok a) = inl (a, refl)
Result-cases (err e) = inr (e, refl)

abbrev pub ⊤ : Type 0
⊤ = Unit

abbrev pub Action : Type 0 → Type 0 → Type 0 → Type 0
Action E S A = S → Result E A × S

module _ {E S A : Type 0} where
  abbrev pub pure : A → Action E S A
  pure a s = (ok a, s)

  abbrev pub raise : E → Action E S A
  raise e s = (err e, s)

  -- A call of a pure function that may raise.
  abbrev pub lift : Result E A → Action E S A
  lift r s = (r, s)

  abbrev pub gets : (S → A) → Action E S A
  gets f s = (ok (f s), s)

module _ {E S A B : Type 0} where
  infixl 5 ◌>>=◌
  abbrev pub ◌>>=◌ : Action E S A → (A → Action E S B) → Action E S B
  ◌>>=◌ m f s = let (r, s') = m s in elim r [ ok a ↦ f a s' | err e ↦ (err e, s') ]

module _ {E S B : Type 0} where
  infixl 5 ◌>>◌
  abbrev pub ◌>>◌ : Action E S ⊤ → Action E S B → Action E S B
  m >> k = m >>= λ _. k

module _ {E S : Type 0} where
  -- `self`, as it stands now.
  abbrev pub self : Action E S S
  self s = (ok s, s)

  abbrev pub modify : (S → S) → Action E S ⊤
  modify f s = (ok tt, f s)

  abbrev pub raise_if : Bool → E → Action E S ⊤
  raise_if true e s = (err e, s)
  raise_if false e s = (ok tt, s)

  abbrev pub raise_unless : Bool → E → Action E S ⊤
  raise_unless true e s = (ok tt, s)
  raise_unless false e s = (err e, s)

  -- `if c: m`
  abbrev pub when : Bool → Action E S ⊤ → Action E S ⊤
  when true m s = m s
  when false m s = (ok tt, s)

  -- `if x is not None: m(x)`
  abbrev pub when_some : {A : Type 0} → Option A → (A → Action E S ⊤) → Action E S ⊤
  when_some none m s = (ok tt, s)
  when_some (some a) m s = m a s

-- What holds of the object after a call that returns; nothing is said of a call that raises.
abbrev pub Ensures : {E S A : Type 0} → (A → S → Type 0) → Result E A × S → Type 0
Ensures P (ok a, s) = P a s
Ensures P (err _, _) = Unit

-- What holds of the object after a call, however it ends.
abbrev pub Leaves : {E S A : Type 0} → (S → Type 0) → Result E A × S → Type 0
Leaves P (_, s) = P s
