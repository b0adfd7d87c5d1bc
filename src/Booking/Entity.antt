-- ===== src/Booking/Entity.antt =====
-- services/booking-service/app/domain/entities.py: the booking aggregate. Its methods change the
-- object in place and may raise after a part of their writes, so each is an action on the record.
mod State
mod Create
mod Checks
mod Evidence
mod Lifecycle
mod Saga
unfoldable pub use State.*
unfoldable pub use Create.*
unfoldable pub use Checks.*
unfoldable pub use Evidence.*
unfoldable pub use Lifecycle.*
unfoldable pub use Saga.*
