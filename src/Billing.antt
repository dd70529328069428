-- ===== src/Billing.antt =====
-- services/billing: subscriptions in PostgreSQL (Store), the cost of a month from ClickHouse (Cogs,
-- and Warehouse for what its queries mean), export to the billing provider (Exporter) and the HTTP API (Handler and
-- Routes).
pub mod Store
pub mod Cogs
pub mod Warehouse
pub mod Exporter
pub mod Handler
pub mod Routes
mod Tests
