-- ===== src/Metering.antt =====
-- services/metering: the consumer of usage events (Consumer), the analytics sink (Sink), the
-- pricer that asks the rating service (Pricer) and the built-in price table (Pricing).
pub mod Sink
pub mod Pricer
pub mod Pricing
pub mod Consumer
mod Tests
