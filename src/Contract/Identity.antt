-- ===== src/Contract/Identity.antt =====
-- proto/gen/identity/v1/identity.pb.go: the messages.
use marginpilot.Base.{Bool, Text}

pub record ResolveRequest : Type 0 where
  pub api_key : Text

pub record ResolveResponse : Type 0 where
  pub found : Bool
  pub tenant_id : Text
  pub customer_id : Text
  pub feature : Text
