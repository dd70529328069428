-- ===== src/Budget/Enforcer.antt =====
-- services/budget/internal/enforcer/enforcer.go
pub mod Decisions
use marginpilot.Base.{
  Text, codes, [], Bool, true, false, not, if◌then◌else◌, ℤ, pos, leb_ℤ, sub64, Proc, pure, ◌>>=◌,
}

-- The port `Store`.
pub record SpendStore (W : Type 0) : Type 0 where
  pub spend : Text → Text → Proc W ℤ
  pub limit : Text → Text → Proc W ℤ
  pub set_limit : Text → Text → ℤ → Proc W (Unit {0})
  pub allow_rate : Text → Text → Proc W Bool

pub record Decision : Type 0 where
  pub allowed : Bool
  pub remaining_micros : ℤ
  pub reason : Text

pub record Enforcer (W : Type 0) : Type 0 where
  pub store : SpendStore W
  pub default_limit : ℤ

abbrev pub reason_rate : Text
reason_rate = codes "rate_limit"

abbrev pub reason_budget : Text
reason_budget = codes "budget"

-- `if limit <= 0 { limit = e.defaultLimit }`
unfoldable pub effective_limit : ℤ → ℤ → ℤ
effective_limit default_limit limit = if leb_ℤ limit (pos 0) then default_limit else limit

-- The final `switch`.
unfoldable pub decide : Bool → ℤ → Decision
decide ok_rate remaining =
    if not ok_rate
    then record { allowed = false; remaining_micros = remaining; reason = reason_rate }
    else if leb_ℤ remaining (pos 0)
    then record { allowed = false; remaining_micros = remaining; reason = reason_budget }
    else record { allowed = true; remaining_micros = remaining; reason = [] }

module _ {W : Type 0} (e : Enforcer W) where
  -- `Allow`
  unfoldable pub allow : Text → Text → Proc W Decision
  allow tenant customer = do
    ok_rate ← e.store.allow_rate tenant customer
    limit ← e.store.limit tenant customer
    spent ← e.store.spend tenant customer
    pure (decide ok_rate (sub64 (effective_limit e.default_limit limit) spent))

  -- `SetLimit`
  unfoldable pub set_limit : Text → Text → ℤ → Proc W (Unit {0})
  set_limit tenant customer micros = e.store.set_limit tenant customer micros
