-- ===== src/Shared.antt =====
-- The Go module shared/: event contracts, configuration, calendar months, the HTTP
-- server and the spend keys.
pub mod Events
pub mod Config
pub mod Calendar
pub mod Server
pub mod Spend
mod Tests
