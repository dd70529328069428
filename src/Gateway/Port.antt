-- ===== src/Gateway/Port.antt =====
-- services/gateway/internal/port/ports.go and the port of internal/app/resolver.go, over an unknown
-- world `W`. A guardrail has no outside effect.
use marginpilot.Base.{Text, Bool, Option, Result, Proc}
use marginpilot.Shared.Events.{UsageEvent}
use marginpilot.Gateway.Domain.{ChatRequest, ChatResponse, Caller}

pub record LlmProvider (W : Type 0) : Type 0 where
  pub name : Text
  pub complete : ChatRequest → Proc W ChatResponse

abbrev pub UsagePublisher : Type 0 → Type 0
UsagePublisher W = UsageEvent → Proc W (Unit {0})

abbrev pub BudgetChecker : Type 0 → Type 0
BudgetChecker W = Text → Text → Proc W Bool

-- `Get` answers a response and whether there was one: an option.
pub record Cache (W : Type 0) : Type 0 where
  pub get : Text → Proc W (Option ChatResponse)
  pub set : Text → ChatResponse → Proc W (Unit {0})

abbrev pub Guardrail : Type 0
Guardrail = ChatRequest → Result ChatRequest

abbrev pub CallerResolver : Type 0 → Type 0
CallerResolver W = Text → Proc W Caller

-- The struct `Service` of internal/app/service.go, less its logger.
pub record Ports (W : Type 0) : Type 0 where
  pub provider : LlmProvider W
  pub publish : UsagePublisher W
  pub budget : BudgetChecker W
  pub cache : Cache W
  pub guardrail : Guardrail
