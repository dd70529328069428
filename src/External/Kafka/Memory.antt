-- ===== src/External/Kafka/Memory.antt =====
-- A broker in memory: a queue for each topic, and one group of readers. It is one instance of the
-- interface and meets its laws.
use marginpilot.Base.{
  Text, codes, text_eq, List, [], ◌∷◌, ◌++◌, ◌≡◌, refl, Bool-cases, inl, inr, if◌then◌else◌, Result,
  ok, err, failure,
}
use marginpilot.External.Kafka.{Message, Broker, IsBroker, keyed, keyed-append, copies}

abbrev pub Queues : Type 0
Queues = Text → List Message

abbrev first : List Message → Result Message
first [] = err (failure (codes "empty"))
first (m ∷ ms) = ok m

abbrev rest : List Message → List Message
rest [] = []
rest (m ∷ ms) = ms

abbrev pub memory_broker : Broker Queues
memory_broker = record {
  writer = λ c m w. (ok tt, λ t. if text_eq c.topic t then w t ++ m ∷ [] else w t);
  reader = λ c w. (first (w c.topic), λ t. if text_eq c.topic t then rest (w t) else w t);
}

abbrev pub waiting : Queues → Text → Text → Text → List Message
waiting w topic group k = keyed k (w topic)

waiting-appended :
    (topic t k : Text) (m : Message) (w : Queues)
    → keyed k (if text_eq topic t then w t ++ m ∷ [] else w t)
      ≡ (if text_eq topic t then keyed k (w t) ++ keyed k (m ∷ []) else keyed k (w t))
waiting-appended topic t k m w = elim (Bool-cases (text_eq topic t)) [
  | inl p ↦ rw p (keyed-append k (w t) (m ∷ []))
  | inr p ↦ rw p refl
]

-- The laws are met, so they can be assumed together.
pub memory_broker-IsBroker : IsBroker memory_broker (λ c m w. 1) waiting
unfolding copies
memory_broker-IsBroker = record {
  waiting-writer = λ c m topic group k w hashed. waiting-appended c.topic topic k m w;
}
