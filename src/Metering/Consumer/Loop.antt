-- ===== src/Metering/Consumer/Loop.antt =====
-- The loop of the consumer: when it returns, and what it does with a message that it fails to handle.
use marginpilot.Base.{
  ℕ, zero, suc, ◌≡◌, ◌⊎◌, inl, inr, refl, Text, Bool, true, Result, ok, err, canceled,
}
use marginpilot.Shared.Events.{UsageEvent}
use marginpilot.External.Redis.{Redis}
use marginpilot.External.Kafka.{Message, Reader}
use marginpilot.External.ClickHouse.{Connection}
use marginpilot.Metering.Pricer.{Pricer}
use marginpilot.Metering.Sink.{Row}
use marginpilot.Metering.Consumer.{handle, run, round}

module _ {W : Type 0} (unmarshal : Text → Result UsageEvent) (pricer : Pricer W)
    (ch : Connection W Row) (rdb : Redis W) (read : Reader W) where
  abbrev pub handled : Message → W → W
  handled m w = (handle unmarshal pricer ch rdb m.value w).1

  abbrev rounds : ℕ → W → Bool × W
  rounds = run unmarshal pricer ch rdb read

  canceled_or_next :
      (n : ℕ) (out : Result Message) (w : W)
      → (round unmarshal pricer ch rdb (rounds n) out w).0 ≡ true
      → (out ≡ err canceled) ⊎ ((w' : W) × ((rounds n w').0 ≡ true))
  unfolding round
  canceled_or_next n (ok m) w h = inr (handled m w, h)
  canceled_or_next n (err canceled) w h = inl refl
  canceled_or_next n (err _) w h = inr (w, h)

  -- The loop returns only when a read was cancelled: no failure to read or to handle ends it.
  run-canceled : (n : ℕ) (w : W) → (rounds n w).0 ≡ true → (w' : W) × ((read w').0 ≡ err canceled)
  unfolding run
  run-canceled zero w h = cc
  run-canceled (suc n) w h = elim (canceled_or_next n (read w).0 (read w).1 h) [
    | inl stop ↦ (w, stop)
    | inr (w', later) ↦ run-canceled n w' later
  ]
