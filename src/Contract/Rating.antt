-- ===== src/Contract/Rating.antt =====
-- proto/gen/rating/v1/rating.pb.go: the messages.
use marginpilot.Base.{Text, ℤ}

pub record PriceRequest : Type 0 where
  pub model : Text
  pub input_tokens : ℤ
  pub output_tokens : ℤ

pub record PriceResponse : Type 0 where
  pub cost_micros : ℤ
