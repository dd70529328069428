-- ===== src/Contract/Budget.antt =====
-- proto/gen/budget/v1/budget.pb.go: the messages.
use marginpilot.Base.{Bool, Text, ℤ}

pub record AllowRequest : Type 0 where
  pub tenant_id : Text
  pub customer_id : Text

pub record AllowResponse : Type 0 where
  pub allowed : Bool
  pub remaining_micros : ℤ
  pub reason : Text

pub record SetLimitRequest : Type 0 where
  pub tenant_id : Text
  pub customer_id : Text
  pub limit_micros : ℤ

pub record SetLimitResponse : Type 0 where
  pub acknowledged : Bool
