-- ===== src/Gateway/Domain.antt =====
-- services/gateway/internal/domain/chat.go, and `Caller` of internal/app/service.go.
use marginpilot.Base.{Text, List, Bool, ℤ}

pub record ChatMessage : Type 0 where
  pub role : Text
  pub content : Text

pub record ChatRequest : Type 0 where
  pub model : Text
  pub messages : List ChatMessage
  pub stream : Bool

pub record Choice : Type 0 where
  pub index : ℤ
  pub message : ChatMessage
  pub finish_reason : Text

pub record Usage : Type 0 where
  pub prompt_tokens : ℤ
  pub completion_tokens : ℤ
  pub total_tokens : ℤ

pub record ChatResponse : Type 0 where
  pub id : Text
  pub object : Text
  pub model : Text
  pub choices : List Choice
  pub usage : Usage

pub record Caller : Type 0 where
  pub tenant_id : Text
  pub customer_id : Text
  pub feature : Text
