-- ===== src/Inventory/Executor.antt =====
-- services/seat-inventory-service/app/application/executor.py: the retries of a database operation.
-- The pause between two attempts is left out.
use event_ticketing_soa.Common.{
  ℕ, zero, suc, ◌+◌, ◌<◌, Bool, true, false, ◌&&◌, ◌≡◌, refl, Option, none, some, List, [], ◌∷◌,
  Result, ok, err, arith, inl, inr, Bool-cases, if◌then◌else◌, ltb, ◌==◌, length, some_and,
}
use event_ticketing_soa.Common.Text.{Text, codes, mem_text}
use event_ticketing_soa.Inventory.Errors.{SeatInventoryError}

-- One exception of a chain of causes: its `sqlstate` and its `pgcode`.
pub record ChainedError : Type 0 where
  pub sqlstate : Option Text
  pub pgcode : Option Text

-- What an operation raises: an error of the service, a DBAPIError with its chain, or another.
pub data Raised : Type 0 where
  service : SeatInventoryError → Raised
  database : List ChainedError → Raised
  other : Raised

-- `a or b`, of optional texts.
abbrev pub given_or : Option Text → Option Text → Option Text
given_or none b = b
given_or (some a) b = if length a == 0 then b else some a

-- `if sqlstate: return`, or the next of the chain.
abbrev pub state_or : Option Text → Option Text → Option Text
state_or none rest = rest
state_or (some s) rest = if length s == 0 then rest else some s

unfoldable pub postgres_sqlstate : List ChainedError → Option Text
postgres_sqlstate [] = none
postgres_sqlstate (e ∷ chain) = state_or (given_or e.sqlstate e.pgcode) (postgres_sqlstate chain)

abbrev pub retryable_sqlstates : List Text
retryable_sqlstates = codes "40001" ∷ codes "40P01" ∷ []

unfoldable pub is_retryable : List ChainedError → Bool
unfolding postgres_sqlstate
is_retryable chain = some_and (postgres_sqlstate chain) (λ s. mem_text s retryable_sqlstates)

module _ {W A : Type 0} where
  -- The handlers of one attempt.
  unfoldable pub after_attempt :
      (max_retries attempt : ℕ)
      → Result Raised A × W
      → (W → Option (Result Raised A × W))
      → Option (Result Raised A × W)
  unfolding is_retryable
  after_attempt max_retries attempt (ok a, w) again = some (ok a, w)
  after_attempt max_retries attempt (err (Raised.service e), w) again =
      some (err (Raised.service e), w)
  after_attempt max_retries attempt (err Raised.other, w) again = some (err Raised.other, w)
  after_attempt max_retries attempt (err (Raised.database chain), w) again =
      if is_retryable chain && ltb attempt max_retries
      then again w
      else some (err (Raised.service SeatInventoryError.dependency_unavailable), w)

  -- The loop; `none` is for want of fuel.
  unfoldable pub attempts :
      (operation : W → Result Raised A × W) (max_retries attempt fuel : ℕ)
      → W
      → Option (Result Raised A × W)
  unfolding after_attempt
  attempts operation max_retries attempt zero w = none
  attempts operation max_retries attempt (suc fuel) w =
      after_attempt max_retries attempt (operation w)
        (λ w'. attempts operation max_retries (suc attempt) fuel w')

  -- One attempt, and one for each retry.
  unfoldable pub execute_database_operation :
      (operation : W → Result Raised A × W) (max_retries : ℕ) → W → Option (Result Raised A × W)
  unfolding attempts
  execute_database_operation operation max_retries =
      attempts operation max_retries 0 (suc max_retries)

  -- A return, or a raise of anything but a database error.
  abbrev pub is_handled : Option (Result Raised A × W) → Bool
  is_handled none = false
  is_handled (some (ok a, w)) = true
  is_handled (some (err (Raised.service e), w)) = true
  is_handled (some (err Raised.other, w)) = true
  is_handled (some (err (Raised.database chain), w)) = false

  after_attempt-is_handled :
      (max_retries attempt : ℕ) (r : Result Raised A × W) (again : W → Option (Result Raised A × W))
      → (attempt < max_retries → (w : W) → is_handled (again w) ≡ true)
      → is_handled (after_attempt max_retries attempt r again) ≡ true
  unfolding after_attempt
  after_attempt-is_handled max_retries attempt (ok a, w) again f = refl
  after_attempt-is_handled max_retries attempt (err (Raised.service e), w) again f = refl
  after_attempt-is_handled max_retries attempt (err Raised.other, w) again f = refl
  after_attempt-is_handled max_retries attempt (err (Raised.database chain), w) again f =
      elim (Bool-cases (is_retryable chain && ltb attempt max_retries)) [
        | inl h ↦ rw h (f (ground arith) w)
        | inr h ↦ rw h
      ]

  attempts-is_handled :
      (operation : W → Result Raised A × W) (max_retries attempt fuel : ℕ) (w : W)
      → max_retries < attempt + fuel
      → attempt < suc max_retries
      → is_handled (attempts operation max_retries attempt fuel w) ≡ true
  unfolding attempts
  attempts-is_handled operation max_retries attempt zero w h k = absurd (omega arith)
  attempts-is_handled operation max_retries attempt (suc fuel) w h k =
      after_attempt-is_handled max_retries attempt (operation w)
        (λ w'. attempts operation max_retries (suc attempt) fuel w')
        λ l w'.
          attempts-is_handled operation max_retries (suc attempt) fuel w' (omega arith)
            (omega arith)

  -- The loop of retries ends after one attempt and one for each retry at most, whatever the operation
  -- does, and what it raises is never a database error: that has become DependencyUnavailable.
  pub execute_database_operation-is_handled :
      (operation : W → Result Raised A × W) (max_retries : ℕ) (w : W)
      → is_handled (execute_database_operation operation max_retries w) ≡ true
  unfolding execute_database_operation
  execute_database_operation-is_handled operation max_retries w =
      attempts-is_handled operation max_retries 0 (suc max_retries) w (omega arith) (omega arith)
