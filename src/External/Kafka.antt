-- ===== src/External/Kafka.antt =====
-- The driver kafka-go: a writer is bound to a topic; a reader gives the next message or an error.
pub mod Memory
use marginpilot.Base.{
  ℕ, zero, suc, Bool, true, false, Bool-cases, inl, inr, refl, ap, Text, text_eq, List, [], ◌∷◌,
  ◌++◌, ◌≡◌, ◌≢◌, if◌then◌else◌, Proc, ok,
}

pub record Message : Type 0 where
  pub key : Text
  pub value : Text

abbrev pub Writer : Type 0 → Type 0
Writer W = Message → Proc W (Unit {0})

abbrev pub Reader : Type 0 → Type 0
Reader W = Proc W Message

-- How a writer chooses the partition of a message.
pub data Balancer : Type 0 where
  hash round_robin : Balancer

-- The settings of a writer and of a reader that the program chooses: where messages go and come from. Times
-- are in nanoseconds, and 0 is the driver's own choice.
pub record WriterConfig : Type 0 where
  pub addr : List Text
  pub topic : Text
  pub balancer : Balancer
  pub creates_topic : Bool
  pub batch_timeout : ℕ
  pub write_timeout : ℕ

pub record ReaderConfig : Type 0 where
  pub brokers : List Text
  pub topic : Text
  pub group_id : Text

pub record Broker (W : Type 0) : Type 0 where
  pub writer : WriterConfig → Writer W
  pub reader : ReaderConfig → Reader W

-- The messages of one key, in their order.
unfoldable pub keyed : Text → List Message → List Message
keyed k [] = []
keyed k (m ∷ ms) = if text_eq m.key k then m ∷ keyed k ms else keyed k ms

pub keyed-append : (k : Text) (xs ys : List Message) → keyed k (xs ++ ys) ≡ keyed k xs ++ keyed k ys
unfolding keyed
keyed-append k [] ys = refl
keyed-append k (x ∷ xs) ys = elim (Bool-cases (text_eq x.key k)) [
  | inl p ↦ rw p (ap (λ (l : List Message). x ∷ l) (keyed-append k xs ys))
  | inr p ↦ rw p (keyed-append k xs ys)
]

unfoldable pub copies : ℕ → Message → List Message
copies zero m = []
copies (suc n) m = m ∷ copies n m

-- `waiting w topic group k` is what the group has yet to read of the topic's messages of the key `k`.
-- A hash balancer puts the messages of one key into one partition, which keeps their order; between
-- keys there is none. `arrivals c m w` is how often a message that is written arrives: a writer that
-- waits for no acknowledgement can lose one, and one that tries again can send it twice.
pub record IsBroker {W : Type 0} (broker : Broker W) (arrivals : WriterConfig → Message → W → ℕ)
    (waiting : W → Text → Text → Text → List Message) : Type 0 where
  pub waiting-writer :
      (c : WriterConfig) (m : Message) (topic group k : Text) (w : W)
      → c.balancer ≡ hash
      → waiting (broker.writer c m w).1 topic group k ≡ (
          if text_eq c.topic topic
          then waiting w topic group k ++ keyed k (copies (arrivals c m w) m)
          else waiting w topic group k)
