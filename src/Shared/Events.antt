-- ===== src/Shared/Events.antt =====
-- shared/events/events.go. Field tags are not modelled: the JSON codec is a parameter of its users.
use marginpilot.Base.{Text, codes, ℤ}
use marginpilot.Shared.Calendar.{Time}

abbrev pub topic_usage : Text
topic_usage = codes "usage.events.v1"

abbrev pub topic_alerts : Text
topic_alerts = codes "alerts.v1"

pub record AlertEvent : Type 0 where
  pub alert_id : Text
  pub type : Text
  pub severity : Text
  pub tenant_id : Text
  pub customer_id : Text
  pub message : Text
  pub occurred_at : Time

pub record UsageEvent : Type 0 where
  pub event_id : Text
  pub tenant_id : Text
  pub customer_id : Text
  pub feature : Text
  pub provider : Text
  pub model : Text
  pub input_tokens : ℤ
  pub output_tokens : ℤ
  pub latency_ms : ℤ
  pub occurred_at : Time
