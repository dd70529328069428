-- ===== src/Budget/Server.antt =====
-- services/budget/internal/adapter/grpcserver/server.go. `emitAlert` starts a goroutine: the handler
-- answers at once, and hands over the alert that is to be sent later by `send_alert`.
pub mod Alerts
use marginpilot.Base.{
  Text, codes, ◌++◌, Option, none, some, Bool, true, false, not, ◌&&◌, if◌then◌else◌, Proc, pure,
  always, attempt, ◌>>=◌, ◌>>◌,
}
use marginpilot.Shared.Events.{AlertEvent}
use marginpilot.External.Machine.{Machine}
use marginpilot.External.Hex
use marginpilot.Contract.Budget.{AllowRequest, AllowResponse, SetLimitRequest, SetLimitResponse}
use marginpilot.Budget.Enforcer.{Enforcer}
use marginpilot.Budget.Enforcer

-- The port `AlertPublisher`.
abbrev pub AlertPublisher : Type 0 → Type 0
AlertPublisher W = AlertEvent → Proc W (Unit {0})

pub record Server (W : Type 0) : Type 0 where
  pub enforcer : Enforcer W
  pub alerter : Option (AlertPublisher W)

-- The arguments of `emitAlert`.
pub record Alert : Type 0 where
  pub tenant : Text
  pub customer : Text
  pub reason : Text

abbrev pub is_set : {A : Type 0} → Option A → Bool
is_set none = false
is_set (some _) = true

module _ {W : Type 0} (s : Server W) where
  -- `Allow`, with the alert that it starts
  unfoldable pub allow : AllowRequest → Proc W (AllowResponse × Option Alert)
  allow req = do
    d ← Enforcer.allow s.enforcer req.tenant_id req.customer_id
    pure (
      record { allowed = d.allowed; remaining_micros = d.remaining_micros; reason = d.reason },
      if not d.allowed && is_set s.alerter
          then some
              (record { tenant = req.tenant_id; customer = req.customer_id; reason = d.reason })
          else none,
    )

  -- `SetLimit`
  unfoldable pub set_limit : SetLimitRequest → Proc W SetLimitResponse
  set_limit req = do
    Enforcer.set_limit s.enforcer req.tenant_id req.customer_id req.limit_micros
    pure (record { acknowledged = true })

-- `newID`
unfoldable pub new_id : {W : Type 0} → Machine W → Proc W Text
new_id m = do bytes ← always m.random; pure (Hex.encode bytes)

-- The body of the goroutine that `emitAlert` starts. A failed publish is only logged.
unfoldable pub send_alert : {W : Type 0} → Machine W → AlertPublisher W → Alert → Proc W (Unit {0})
unfolding new_id
send_alert m publish a = do
  id ← new_id m
  t ← always m.now
  attempt (
      publish (record {
        alert_id = id;
        type = a.reason;
        severity = codes "warning";
        tenant_id = a.tenant;
        customer_id = a.customer;
        message = codes "request blocked: " ++ a.reason;
        occurred_at = t;
      }))
  pure tt
