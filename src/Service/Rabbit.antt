-- ===== src/Service/Rabbit.antt =====
-- RabbitMQ's exchanges and queues, as far as src/workers/notif/mod.rs relies on them.
use hoopoe.Base.{Text, List, [], ◌∷◌, ◌++◌, ◌≡◌}

-- A queue with the exchange to which it is bound and the key of the binding.
pub record Bound : Type 0 where
  pub queue : Text
  pub exchange : Text
  pub key : Text

-- A message that an exchange takes.
pub record Sent : Type 0 where
  pub exchange : Text
  pub key : Text
  pub payload : Text

-- The state of the broker, and the payloads that have come into a queue. A message with the key of a
-- binding comes into its queue once, whatever the kind of the exchange, if the binding was made
-- before; nothing comes into a queue by a binding.
pub record RabbitApi : Type 1 where
  pub State : Type 0
  pub bind : Bound → State → State
  pub send : Sent → State → State
  pub arrived : State → Text → List Text
  pub arrived-bind : (b : Bound) (s : State) → arrived (bind b s) b.queue ≡ arrived s b.queue
  pub arrived-send :
      (b : Bound) (m : Sent) (s : State)
      → m.exchange ≡ b.exchange
      → m.key ≡ b.key
      → arrived (send m (bind b s)) b.queue ≡ arrived (bind b s) b.queue ++ m.payload ∷ []
