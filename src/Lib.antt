-- ===== src/Lib.antt =====
-- The booking, payment and seat inventory services of the event ticketing platform.
--
-- The platform sells seats: a gateway (gateway/booking-orchestrator) leads a booking through the
-- seat inventory, the payment service and the ticket service, and records what happened at the
-- booking service by commands. The services whose state says who paid, who is owed a release or a
-- refund, and who has which seat are modelled here: services/booking-service,
-- services/payment-service and services/seat-inventory-service.
--
-- Common has the shared part: Boolean tests, lists, the two monads, text and money.
--   * Effect: a method of a Python object is a function from the object to a result and the object
--     (Action); a raise keeps what was written before it. Pure is for functions that only raise.
--   * Text: a Python string is a list of code points; strip, upper, lower and the two regular
--     expressions that the rules use are functions by clauses.
--   * Money: a Decimal is special, a scaled integer or a decimal fraction, with a sign. A validated
--     amount has two decimal places, and is the number of its cents. quantize is half to even, in
--     the default context of 28 digits.
--
-- Booking is services/booking-service/app.
--   * Enums, Errors, Values, Rules: domain/enums.py, exceptions.py, value_objects.py, rules.py.
--   * Entity: domain/entities.py. The record Booking has the fields of the dataclass; each method
--     has its name (attach_reservation, ..., record_compensation), with its leading checks as a
--     function *_checks of its own. begin_or_complete, apply_compensation_evidence, check_version,
--     touch and requirements_satisfied are _begin_or_complete_terminal_transition,
--     _apply_compensation_evidence, _check_version, _touch and
--     _compensation_requirements_satisfied.
--   * Transition: application/commands. Transition has a constructor for each command,
--     is_already_applied and apply are its methods, and execute is execute_transition on the row
--     that it has locked: what a call writes is stored only if it returns. run is a history.
--   * Frame, Moves, Invariant, Service: the lemmas, by what they are about.
--
-- Payment is services/payment-service/app. Its files are those of domain, if no other is named.
--   * Enums, Errors, Values, Rules, Entity: enums.py, exceptions.py, value_objects.py, rules.py and
--     entities.py, as above. Payment.refund returns the receipt.
--   * Ledger: the seven operations as data, performed on the stored payment, and histories.
--   * Provider: application/provider_outcomes.py, with the lookups by a provider's reference of
--     infrastructure/database/repositories.py (Outcome, Guards, Apply). A None that a cast lets
--     through is attribute_error. Once and Twice: the lemmas.
--   * Minor, Drafts, Invariant: the lemmas.
--
-- Inventory is services/seat-inventory-service/app.
--   * Types, Errors, Rules: domain/seat.py, reservation.py, exceptions.py and rules.py, with
--     RequestContext of application/common.py.
--   * Tables: the rows of infrastructure/database/models.py, as a record of lists (Database), and the
--     queries of repositories.py.
--   * Payload, Replay: application/common.py. The digest of a body, the ISO format of a time and the
--     order that the database gives to texts are a record of functions (Platform). A transaction
--     (atomically) keeps its writes only if it returns.
--   * Commands: the other files of application, a function for each command. The steps that
--     confirm_seats and release_seats share are close_reservation and on_reservation; the time of the
--     transaction, the uuid of a new reservation and the rows that other transactions have locked are
--     arguments. A clash of primary keys is integrity_error. Of an audit row only the length of its
--     reason is modelled: a reason that is too long for the column is data_error (append_audit). The
--     other commands' reasons are constants that fit, and the identifiers of a request fit theirs.
--   * Executor: application/executor.py. Its loop has one unit of fuel for each attempt, which is one
--     more than the retries.
--   * Invariant, History, Retry, Settling, SeatIds, Offers: the lemmas, by what they are about. History
--     has the requests as data (Request), their sequences (serve), and the abstract seat (Ownership)
--     with its moves (Move).
--
-- Numbers: times, versions and counts are natural numbers, in Python they are integers or
-- datetimes that are only compared and stored. Every function recurses on a list, but for the loop
-- of the executor. A test `a - b < c` is written `a < b + c`.
--
-- Not modelled: the SHA-256 digest of a payment token is a parameter; the `details` of an error,
-- JSON payloads other than the inventory's, the rest of the audit and outbox rows, the idempotency
-- replays of the booking and payment services, advisory locks, SQLAlchemy, HTTP, SOAP, metrics and
-- workers are left out, as are the configuration of an inventory and its seat map, the ticket,
-- identity, customer, event, notification and realtime services, the gateway, the shared libraries
-- and the frontend.
pub mod Common
pub mod Booking
pub mod Payment
pub mod Inventory
