-- ===== src/Common/Rows.antt =====
-- Tables as lists of rows: selection and update by a Boolean test, and membership as data, so that
-- a row can be taken from it.
use mathlib.Core.Path.{◌≡◌, refl}
use mathlib.Core.Logic.{◌⊎◌, inl, inr}
use mathlib.Core.Bool.{Bool, true, false, ◌||◌}
use mathlib.Core.Option.{Option, none, some}
use mathlib.Core.List.{List, [], ◌∷◌, ◌++◌, map}
use native.Mathlib.Omega.{arith}
use event_ticketing_soa.Common.Tests.{if◌then◌else◌, Bool-cases}

module _ {A : Type 0} where
  -- `[x for x in xs if p(x)]`
  unfoldable pub select : (A → Bool) → List A → List A
  select p [] = []
  select p (x ∷ xs) = let rest = select p xs in if p x then x ∷ rest else rest

  -- `any(p(x) for x in xs)`
  unfoldable pub any : (A → Bool) → List A → Bool
  any p [] = false
  any p (x ∷ xs) = p x || any p xs

  -- The first row that passes the test.
  unfoldable pub first : (A → Bool) → List A → Option A
  first p [] = none
  first p (x ∷ xs) = if p x then some x else first p xs

  abbrev pub change : (A → Bool) → (A → A) → A → A
  change p f x = if p x then f x else x

  -- `UPDATE ... WHERE p`
  unfoldable pub update : (A → Bool) → (A → A) → List A → List A
  update p f [] = []
  update p f (x ∷ xs) = change p f x ∷ update p f xs

  abbrev pub In : A → List A → Type 0
  In x [] = false ≡ true
  In x (y ∷ ys) = (x ≡ y) ⊎ In x ys

  pub In-first : (p : A → Bool) (xs : List A) {x : A} → first p xs ≡ some x → In x xs × (p x ≡ true)
  unfolding first
  In-first p [] h = ground arith
  In-first p (y ∷ ys) {x} h = ground (arith, In-first p ys {x = x})

  pub first-none : (p : A → Bool) (xs : List A) (x : A) → first p xs ≡ none → In x xs → p x ≡ false
  unfolding first
  first-none p [] x h k = cc
  first-none p (y ∷ ys) x h (inl k) = ground arith
  first-none p (y ∷ ys) x h (inr k) = first-none p ys x (ground arith) k

  pub In-update :
      (p : A → Bool) (f : A → A) (xs : List A) (x : A) → In x xs → In (change p f x) (update p f xs)
  unfolding update
  In-update p f [] x h = h
  In-update p f (y ∷ ys) x (inl h) = inl (rw h)
  In-update p f (y ∷ ys) x (inr h) = inr (In-update p f ys x h)

  -- A row of an updated table stands for a row before.
  pub update-In :
      (p : A → Bool) (f : A → A) (xs : List A) (y : A)
      → In y (update p f xs)
      → (x : A) × In x xs × (y ≡ change p f x)
  unfolding update
  update-In p f [] y h = absurd (cc)
  update-In p f (x ∷ xs) y (inl h) = (x, inl refl, h)
  update-In p f (x ∷ xs) y (inr h) = let (z, i, e) = update-In p f xs y h in (z, inr i, e)

  pub any-In : (p : A → Bool) (xs : List A) (x : A) → In x xs → p x ≡ true → any p xs ≡ true
  unfolding any
  any-In p [] x h k = cc
  any-In p (y ∷ ys) x (inl h) k = ground arith
  any-In p (y ∷ ys) x (inr h) k = ground (arith, any-In p ys x h k)

  pub In-any : (p : A → Bool) (xs : List A) → any p xs ≡ true → (x : A) × In x xs × (p x ≡ true)
  unfolding any
  In-any p [] h = absurd (cc)
  In-any p (y ∷ ys) h = elim (Bool-cases (p y)) [
    | inl k ↦ (y, inl refl, k)
    | inr k ↦ let (x, i, e) = In-any p ys (ground arith) in (x, inr i, e)
  ]

  pub select-none : (p : A → Bool) (xs : List A) (x : A) → select p xs ≡ [] → In x xs → p x ≡ false
  unfolding select
  select-none p [] x h k = cc
  select-none p (y ∷ ys) x h (inl k) = ground arith
  select-none p (y ∷ ys) x h (inr k) = select-none p ys x (ground arith) k

  pub In-select : (p : A → Bool) (xs : List A) (x : A) → In x xs → p x ≡ true → In x (select p xs)
  unfolding select
  In-select p [] x h k = h
  In-select p (y ∷ ys) x (inl h) k = ground arith
  In-select p (y ∷ ys) x (inr h) k = ground (arith, In-select p ys x h k)

  pub select-In : (p : A → Bool) (xs : List A) (x : A) → In x (select p xs) → In x xs × (p x ≡ true)
  unfolding select
  select-In p [] x h = absurd (cc)
  select-In p (y ∷ ys) x h = elim (Bool-cases (p y)) [
    | inl k ↦ ground (arith, select-In p ys x)
    | inr k ↦ ground (arith, select-In p ys x)
  ]

  pub In-append_left : (xs ys : List A) (x : A) → In x xs → In x (xs ++ ys)
  In-append_left [] ys x h = absurd (cc)
  In-append_left (y ∷ xs) ys x (inl h) = inl h
  In-append_left (y ∷ xs) ys x (inr h) = inr (In-append_left xs ys x h)

  pub In-append_right : (xs ys : List A) (x : A) → In x ys → In x (xs ++ ys)
  In-append_right [] ys x h = h
  In-append_right (y ∷ xs) ys x h = inr (In-append_right xs ys x h)

  pub append-In : (xs ys : List A) (x : A) → In x (xs ++ ys) → In x xs ⊎ In x ys
  append-In [] ys x h = inr h
  append-In (y ∷ xs) ys x (inl h) = inl (inl h)
  append-In (y ∷ xs) ys x (inr h) = elim (append-In xs ys x h) [
    | inl k ↦ inl (inr k)
    | inr k ↦ inr k
  ]

module _ {A B : Type 0} where
  pub In-map : (f : A → B) (xs : List A) (x : A) → In x xs → In (f x) (map f xs)
  In-map f [] x h = absurd (cc)
  In-map f (y ∷ ys) x (inl h) = inl (rw h)
  In-map f (y ∷ ys) x (inr h) = inr (In-map f ys x h)

  pub map-In : (f : A → B) (xs : List A) (y : B) → In y (map f xs) → (x : A) × In x xs × (y ≡ f x)
  map-In f [] y h = absurd (cc)
  map-In f (x ∷ xs) y (inl h) = (x, inl refl, h)
  map-In f (x ∷ xs) y (inr h) = let (z, i, e) = map-In f xs y h in (z, inr i, e)
