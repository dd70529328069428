-- ===== src/System/Overshoot.antt =====
-- How far a customer can get over the limit. A check is answered from what was metered so far, and a
-- granted request is metered later: checks and metering of several requests interleave.
pub mod Bounds
use marginpilot.Base.{
  ℕ, suc, ◌+◌, ◌≤◌, Text, List, [], ◌∷◌, ◌++◌, length, ◌≡◌, Option, true, ℤ, pos, ◌+ℤ◌, Result, ok,
}
use marginpilot.Shared.Calendar.{Time}
use marginpilot.Shared.Events.{UsageEvent}
use marginpilot.Shared.Spend
use marginpilot.External.Redis.{Redis, IsRedis, counter}
use marginpilot.External.Machine.{Machine}
use marginpilot.External.ClickHouse.{Connection}
use marginpilot.Metering.Pricer.{Pricer}
use marginpilot.Metering.Sink.{Row}
use marginpilot.Metering.Consumer.{handle}
use marginpilot.Metering.Consumer.Accounting.{IsApart}
use marginpilot.Budget.Enforcer.{Decision, allow}
use marginpilot.Budget.Refinement.{enforcer, held_limit, spend_time}

-- What the events of a list cost.
abbrev pub cost_of : (UsageEvent → ℕ) → List UsageEvent → ℕ
cost_of price [] = 0
cost_of price (e ∷ es) = price e + cost_of price es

module _ {W : Type 0} (unmarshal : Text → Result UsageEvent) (pricer : Pricer W)
    (ch : Connection W Row) (r : Redis W) (m : Machine W) {lookup : W → Text → Option Text}
    (laws : IsRedis r lookup) (apart : IsApart pricer ch lookup)
    (quiet : (k : Text) (w : W) → lookup (m.now w).1 k ≡ lookup w k) (default_limit : ℤ)
    (price : UsageEvent → ℕ) (tenant customer : Text) (month : Time) (limit most slots : ℕ) where
  -- The spend counter of the customer in the month.
  abbrev pub spend_counter : Text
  spend_counter = Spend.key tenant customer month

  abbrev pub checked : W → Result Decision × W
  checked w = allow (enforcer r m laws quiet default_limit tenant customer w) tenant customer w

  -- The month is still the current one, and the limit in force is `limit`, when a check begins.
  pub record IsCurrent (w : W) : Type 0 where
    pub same_month :
        Spend.key tenant customer (spend_time r m laws quiet default_limit tenant customer w)
        ≡ spend_counter
    pub same_limit : held_limit r m laws quiet default_limit tenant customer w ≡ pos limit

  -- What can be reached from a world: the world, the events in flight, which belong to requests that
  -- were granted and are not metered yet, and how many deliveries were metered again. There are `slots`
  -- events in flight at most, and no event costs more than `most`. A check that is answered may be
  -- followed by no event; an event in flight is metered, or lost, or its price is added though
  -- its handling failed; an event that is in flight no more, or never was, may be delivered and metered
  -- once more at any time; everything else leaves the counter alone.
  pub data Reached (w₀ : W) : W → List UsageEvent → ℕ → Type 0 where
    start : Reached w₀ w₀ [] 0
    granted :
        (w : W) (es : List UsageEvent) (n : ℕ) (d : Decision) (e : UsageEvent)
        → Reached w₀ w es n
        → IsCurrent w
        → (checked w).0 ≡ ok d
        → d.allowed ≡ true
        → suc (length es) ≤ slots
        → price e ≤ most
        → Reached w₀ (checked w).1 (e ∷ es) n
    answered :
        (w : W) (es : List UsageEvent) (n : ℕ) (d : Decision)
        → Reached w₀ w es n
        → (checked w).0 ≡ ok d
        → Reached w₀ (checked w).1 es n
    metered :
        (w : W) (es fs xs ys : List UsageEvent) (n : ℕ) (e : UsageEvent) (payload : Text)
        → Reached w₀ w es n
        → es ≡ xs ++ e ∷ ys
        → fs ≡ xs ++ ys
        → unmarshal payload ≡ ok e
        → (handle unmarshal pricer ch r payload w).0 ≡ ok tt
        → Reached w₀ (handle unmarshal pricer ch r payload w).1 fs n
    half_metered :
        (f : W → W) (w : W) (es fs xs ys : List UsageEvent) (n : ℕ) (e : UsageEvent)
        → Reached w₀ w es n
        → es ≡ xs ++ e ∷ ys
        → fs ≡ xs ++ ys
        → counter (lookup (f w) spend_counter) ≡ counter (lookup w spend_counter) +ℤ pos (price e)
        → Reached w₀ (f w) fs n
    redelivered :
        (w : W) (es : List UsageEvent) (n : ℕ) (e : UsageEvent) (payload : Text)
        → Reached w₀ w es n
        → price e ≤ most
        → unmarshal payload ≡ ok e
        → (handle unmarshal pricer ch r payload w).0 ≡ ok tt
        → Reached w₀ (handle unmarshal pricer ch r payload w).1 es (suc n)
    lost :
        (w : W) (es fs xs ys : List UsageEvent) (n : ℕ) (e : UsageEvent)
        → Reached w₀ w es n
        → es ≡ xs ++ e ∷ ys
        → fs ≡ xs ++ ys
        → Reached w₀ w fs n
    meanwhile :
        (f : W → W) (w : W) (es : List UsageEvent) (n : ℕ)
        → Reached w₀ w es n
        → counter (lookup (f w) spend_counter) ≡ counter (lookup w spend_counter)
        → Reached w₀ (f w) es n
