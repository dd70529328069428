-- ===== src/Startup.antt =====
-- The commands: connections that are tried again, the choice of adapters by the environment, and what
-- each `main` does.
pub mod Retry
pub mod Wiring
pub mod Services
pub mod Gateway
pub mod Billing
pub mod Consumers
mod Tests
