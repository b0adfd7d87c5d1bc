-- ===== src/Inventory/Tests/Attempts.antt =====
-- An operation that always meets a deadlock.
use event_ticketing_soa.Common.{ℕ, suc, ◌≡◌, refl, true, none, some, [], ◌∷◌, Result, err}
use event_ticketing_soa.Common.Text.{codes, mem_text, text_eq}
use event_ticketing_soa.Inventory.Errors.{SeatInventoryError}
use event_ticketing_soa.Inventory.Executor.{
  Raised, postgres_sqlstate, is_retryable, after_attempt, attempts, execute_database_operation,
  is_handled, execute_database_operation-is_handled,
}

-- The calls are counted.
abbrev deadlock : ℕ → Result Raised ℕ × ℕ
deadlock calls = (
  err (
      Raised.database (
        record { sqlstate = none; pgcode = none }
        ∷ record { sqlstate = none; pgcode = some (codes "40P01") }
        ∷ [])),
  suc calls,
)

deadlock-twice :
    execute_database_operation deadlock 1 0
    ≡ some (err (Raised.service SeatInventoryError.dependency_unavailable), 2)
unfolding execute_database_operation attempts after_attempt is_retryable postgres_sqlstate mem_text
    text_eq
deadlock-twice = refl

execute_database_operation-is_handled_example :
    is_handled (execute_database_operation deadlock 3 0) ≡ true
execute_database_operation-is_handled_example = execute_database_operation-is_handled deadlock 3 0
