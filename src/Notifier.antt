-- ===== src/Notifier.antt =====
-- services/notifier: the consumer of alerts.
pub mod Consumer
mod Tests
