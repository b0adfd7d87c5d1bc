-- ===== src/Inventory/Tests.antt =====
-- The seat inventory service on a small hall.
mod Hall
mod Calls
mod Histories
mod Retries
mod Ends
mod Requests
mod Attempts
