-- ===== src/Metering/Consumer/Traces.antt =====
-- What the consumer does in its rounds: which calls it makes for each message, and in which order.
use marginpilot.Base.{
  ℕ, suc, Text, List, [], ◌∷◌, ◌++◌, ◌≡◌, ◌≢◌, ◌⊎◌, Bool, true, false, ℤ, Proc, Result, Error, ok,
  err, canceled, ◌>>◌,
}
use marginpilot.Shared.Events.{UsageEvent}
use marginpilot.Shared.Spend
use marginpilot.External.Redis.{Redis}
use marginpilot.External.Kafka.{Message, Reader}
use marginpilot.External.ClickHouse.{Connection}
use marginpilot.Metering.Pricer.{Pricer}
use marginpilot.Metering.Sink.{Row, row_of}
use marginpilot.Metering.Consumer.{run}

pub data Call : Type 0 where
  read : Result Message → Call
  priced : Text → ℤ → ℤ → Result ℤ → Call
  appended : Row → Call
  counted : Text → ℤ → Call

-- The world with a record of the calls made so far.
abbrev pub Recorded : Type 0 → Type 0
Recorded W = W × List Call

abbrev note : {W A : Type 0} → (Result A → Call) → Proc W A → Proc (Recorded W) A
note call p (w, log) = let (r, w') = p w in (r, (w', log ++ call r ∷ []))

abbrev unseen : {W A : Type 0} → Proc W A → Proc (Recorded W) A
unseen p (w, log) = let (r, w') = p w in (r, (w', log))

abbrev pub recording_pricer : {W : Type 0} → Pricer W → Pricer (Recorded W)
recording_pricer pricer model i o = note (priced model i o) (pricer model i o)

abbrev pub recording_sink : {W : Type 0} → Connection W Row → Connection (Recorded W) Row
recording_sink ch = record {
  prepare_batch = unseen ch.prepare_batch;
  append = λ b row. note (λ _. appended row) (ch.append b row);
  send = λ b. unseen (ch.send b);
}

abbrev pub recording_redis : {W : Type 0} → Redis W → Redis (Recorded W)
recording_redis rdb = record {
  get = λ k. unseen (rdb.get k);
  set = λ k v ttl. unseen (rdb.set k v ttl);
  incr = λ k. unseen (rdb.incr k);
  incr_by = λ k n. note (λ _. counted k n) (rdb.incr_by k n);
  expire = λ k ttl. unseen (rdb.expire k ttl);
}

abbrev pub recording_reader : {W : Type 0} → Reader W → Reader (Recorded W)
recording_reader reader = note read reader

abbrev pub key_of : UsageEvent → Text
key_of e = Spend.key e.tenant_id e.customer_id e.occurred_at

-- The calls for one message: none if it does not decode; else its price is asked; if there is one, the
-- row with this price is appended, unless no batch could be prepared; and if that was sent, the price
-- is added to the counter of the event's customer and month.
pub data Handling (unmarshal : Text → Result UsageEvent) (payload : Text) : List Call → Type 0 where
  undecoded : (x : Error) → unmarshal payload ≡ err x → Handling unmarshal payload []
  unpriced :
      (e : UsageEvent) (x : Error)
      → unmarshal payload ≡ ok e
      → Handling unmarshal payload (priced e.model e.input_tokens e.output_tokens (err x) ∷ [])
  unprepared :
      (e : UsageEvent) (cost : ℤ)
      → unmarshal payload ≡ ok e
      → Handling unmarshal payload (priced e.model e.input_tokens e.output_tokens (ok cost) ∷ [])
  unsent :
      (e : UsageEvent) (cost : ℤ)
      → unmarshal payload ≡ ok e
      → Handling unmarshal payload (
          priced e.model e.input_tokens e.output_tokens (ok cost) ∷ (appended (row_of e cost) ∷ []))
  charged :
      (e : UsageEvent) (cost : ℤ)
      → unmarshal payload ≡ ok e
      → Handling unmarshal payload (
          priced e.model e.input_tokens e.output_tokens (ok cost)
          ∷ (appended (row_of e cost) ∷ (counted (key_of e) cost ∷ [])))

-- The calls of a number of rounds, and whether the loop has returned: each round reads once; a message
-- is handled, whatever became of those before; a read that fails is followed by the next round, and one
-- that was cancelled by nothing.
pub data Rounds (unmarshal : Text → Result UsageEvent) : ℕ → Bool → List Call → Type 0 where
  none_left : Rounds unmarshal 0 false []
  handled :
      (n : ℕ) (b : Bool) (m : Message) (cs ds : List Call)
      → Handling unmarshal m.value cs
      → Rounds unmarshal n b ds
      → Rounds unmarshal (suc n) b (read (ok m) ∷ (cs ++ ds))
  failed :
      (n : ℕ) (b : Bool) (x : Error) (ds : List Call)
      → x ≢ canceled
      → Rounds unmarshal n b ds
      → Rounds unmarshal (suc n) b (read (err x) ∷ ds)
  stopped : (n : ℕ) → Rounds unmarshal (suc n) true (read (err canceled) ∷ [])

module _ {W : Type 0} (unmarshal : Text → Result UsageEvent) (pricer : Pricer W)
    (ch : Connection W Row) (rdb : Redis W) (reader : Reader W) where
  abbrev Inserted : UsageEvent → ℤ → List Call → Result (Unit {0}) × Recorded W → Type 0
  Inserted e cost log out =
      ((out.0 ≡ ok tt) × (out.1.1 ≡ log ++ appended (row_of e cost) ∷ []))
      ⊎ ((x : Error) × (out.0 ≡ err x)
          × ((out.1.1 ≡ log) ⊎ (out.1.1 ≡ log ++ appended (row_of e cost) ∷ [])))

  -- What a message has added to the record.
  abbrev Adds : Text → List Call → Result (Unit {0}) × Recorded W → Type 0
  Adds payload log out = (cs : List Call) × (out.1.1 ≡ log ++ cs) × Handling unmarshal payload cs

  abbrev recorded_run : ℕ → Recorded W → Bool × Recorded W
  recorded_run =
      run unmarshal (recording_pricer pricer) (recording_sink ch) (recording_redis rdb)
        (recording_reader reader)

  abbrev Goes : ℕ → List Call → Bool × Recorded W → Type 0
  Goes n log out = (cs : List Call) × (out.1.1 ≡ log ++ cs) × Rounds unmarshal n out.0 cs
