-- ===== src/System.antt =====
-- The services together: what metering writes and what the budget reads, what the gateway does when
-- the budget is spent, how far a customer gets over the limit, what a request costs, what billing
-- makes of the metered rows, where alerts go, which invoice the dashboard shows, and whom its
-- simulated requests are made for.
pub mod Enforcement
pub mod Ledger
pub mod Refusals
pub mod Overspent
pub mod Books
pub mod Invoices
pub mod Reconciled
pub mod Urls
pub mod Alerts
pub mod Charged
pub mod Overshoot
pub mod Priced
pub mod Demo
mod Tests
