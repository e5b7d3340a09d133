-- ===== src/Broker/Consume.antt =====
-- The consuming loops of src/workers/notif/mod.rs: `consumeFromRmq`, `consumeFromKafka` and
-- `consumeFromRedis`, over the messages that the broker hands out, one after the other.
use hoopoe.Base.{
  ℕ, suc, Text, List, [], ◌∷◌, Bool, true, false, not, Option, none, some, Outcome, done, panic,
  is_utf8, if◌then◌else◌,
}
use hoopoe.Models.{CryptoConfig, SecureCellConfig, storage_io_error_code}
use hoopoe.Errors
use hoopoe.Errors.{Site, new_error}
use hoopoe.Service.{Services}
use hoopoe.Broker.{World, Env, Kind, rmq, kafka, redis, record_errors, consumer_config}
use hoopoe.Broker.Process.{check_channel, process, process_redis, process_kafka}

-- A consumer goes on, has returned, or has panicked.
pub data Status : Type 0 where
  running returned panicked : Status

-- `acks` counts acknowledged deliveries (RMQ) or the code's own commits (Kafka). `received` is
-- Kafka's offset after the last message that the client handed out, and `committed` the offset that
-- the group has committed.
pub record Run (Store : Type 0) : Type 0 where
  pub world : World Store
  pub acks : ℕ
  pub received : ℕ
  pub committed : ℕ
  pub status : Status

-- One message with what meets it: no `body` is the broker's error; `conn_ok` is the connection for
-- the check of the configuration; `ack_ok` is the answer to the acknowledgement or the commit.
pub record Message : Type 0 where
  pub body : Option Text
  pub conn_ok : Bool
  pub env : Env
  pub ack_ok : Bool

unfoldable pub stop : {Store : Type 0} → Status → Run Store → Run Store
stop status r = record r { status = status }

fail : {Store : Type 0} → Site → Run Store → Run Store
unfolding record_errors new_error
fail site r = record r {
  world = record_errors (new_error storage_io_error_code site true ∷ []) r.world;
  status = returned;
}

-- The answers of the pool, of `create_channel`, `queue_declare`, `queue_bind`, `basic_consume`.
pub record Setup : Type 0 where
  pub pool : Bool
  pub channel : Bool
  pub declare : Bool
  pub bind : Bool
  pub consume : Bool

-- The answers before the loops of Kafka and Redis: of the Redis pool, the creation of a consumer
-- (Kafka), the subscription.
pub record StreamSetup : Type 0 where
  pub pool : Bool
  pub create : Bool
  pub subscribe : Bool

-- The first step before the loop that fails, if one does.
unfoldable pub setup_failure : Setup → Option Site
setup_failure s =
    if not s.pool
    then some Errors.Site.consume_pool
    else if not s.channel
    then some Errors.Site.consume_create_channel
    else if not s.declare
    then some Errors.Site.queue_declare
    else if not s.bind
    then some Errors.Site.queue_bind
    else if not s.consume
    then some Errors.Site.consume_basic_consume
    else none

module _ (V : Services) where
  abbrev Step : Type 0
  Step = Message → Run V.Store → Run V.Store

  unfoldable pub loop : Step → List Message → Run V.Store → Run V.Store
  loop step [] r = r
  loop step (m ∷ ms) r = elim r.status [ running ↦ loop step ms (step m r) | _ ↦ r ]

  -- The channel check at the head of each round; the round goes on with `body`.
  unfoldable pub checked :
      Kind
      → SecureCellConfig × Text
      → Message
      → (Run V.Store → Run V.Store)
      → Run V.Store
      → Run V.Store
  unfolding stop
  checked kind (config, unique_key) m body r =
      if m.conn_ok
      then (elim (check_channel V kind r.world.store config unique_key) [
        | panic ↦ stop panicked r
        | done false ↦ stop returned r
        | done true ↦ body r
      ])
      else stop panicked r

  -- A spawned task leaves its world, and the old one if it panics.
  unfoldable pub spawned : Outcome (World V.Store × Bool) → World V.Store → World V.Store
  spawned panic w = w
  spawned (done (w', completed)) w = w'

  acknowledge : Bool → Run V.Store → Run V.Store
  unfolding fail
  acknowledge true r = record r { acks = suc r.acks }
  acknowledge false r = fail Errors.Site.consume_ack r

  -- The delivery goes to a spawned task, and is acknowledged whatever becomes of that.
  unfoldable pub rmq_round :
      ℕ → Bool → SecureCellConfig → Message → Text → Run V.Store → Run V.Store
  unfolding acknowledge spawned stop
  rmq_round exp store_in_db config m bytes r =
      if is_utf8 bytes
      then acknowledge m.ack_ok (record r {
        world = spawned (process V exp store_in_db config m.env bytes r.world) r.world;
      })
      else stop panicked r

  unfoldable pub rmq_step : ℕ → Bool → SecureCellConfig × Text → Step
  unfolding fail
  rmq_step exp store_in_db config m r = elim m.body [
    | none ↦ fail Errors.Site.consume_getting_delivery r
    | some bytes ↦ checked rmq config m (rmq_round exp store_in_db config.0 m bytes) r
  ]

  -- The consumer is dropped with its task. It has `enable.auto.commit`, so that the client commits
  -- what was received, at the latest when it is closed; its timer may have done so before.
  unfoldable pub close : Run V.Store → Run V.Store
  close r = elim r.status [ running ↦ r | _ ↦ record r { committed = r.received } ]

  unfoldable pub commit : Message → Run V.Store → Outcome (World V.Store × Bool) → Run V.Store
  unfolding stop
  commit m r panic = stop panicked r
  commit m r (done (w, false)) = record r { world = w; status = returned }
  commit m r (done (w, true)) =
      if m.ack_ok
      then record r { world = w; acks = suc r.acks; committed = r.received }
      else record r { world = w; status = panicked }

  -- Nothing is spawned: an early return ends the whole loop.
  unfoldable pub kafka_round : ℕ → SecureCellConfig → Message → Text → Run V.Store → Run V.Store
  unfolding commit stop
  kafka_round exp config m bytes r =
      if is_utf8 bytes
      then commit m r (process_kafka V exp config m.env bytes r.world)
      else stop panicked r

  -- An error of the stream ends it.
  unfoldable pub kafka_step : ℕ → SecureCellConfig × Text → Step
  unfolding stop close
  kafka_step exp config m r = elim m.body [
    | none ↦ close (stop returned r)
    | some bytes ↦ close (
        checked kafka config m (kafka_round exp config.0 m bytes)
          (record r { received = suc r.received }))
  ]

  -- The message itself is unwrapped after the check.
  unfoldable pub redis_round : ℕ → SecureCellConfig → Message → Run V.Store → Run V.Store
  unfolding spawned stop
  redis_round exp config m r = elim m.body [
    | none ↦ stop panicked r
    | some bytes ↦ record r {
      world = spawned (process_redis V exp config m.env bytes r.world) r.world;
    }
  ]

  unfoldable pub redis_step : ℕ → SecureCellConfig × Text → Step
  redis_step exp config m = checked redis config m (redis_round exp config.0 m)

  unfoldable pub consume_from_rmq :
      Setup → ℕ → Bool → Option CryptoConfig → List Message → Run V.Store → Run V.Store
  unfolding fail
  consume_from_rmq setup exp store_in_db decryption ms r = elim (setup_failure setup) [
    | some site ↦ fail site r
    | none ↦ loop (rmq_step exp store_in_db (consumer_config V decryption)) ms r
  ]

  -- The subscription to the topics is unwrapped.
  unfoldable pub consume_from_kafka :
      StreamSetup → ℕ → Option CryptoConfig → List Message → Run V.Store → Run V.Store
  unfolding fail stop
  consume_from_kafka setup exp decryption ms r =
      if not setup.pool
      then fail Errors.Site.kafka_redis_pool r
      else if not setup.create
      then fail Errors.Site.kafka_create_consumer r
      else if not setup.subscribe
      then stop panicked r
      else loop (kafka_step exp (consumer_config V decryption)) ms r

  -- The stream comes from the connection that is there since the start.
  unfoldable pub consume_from_redis :
      StreamSetup → ℕ → Option CryptoConfig → List Message → Run V.Store → Run V.Store
  unfolding fail
  consume_from_redis setup exp decryption ms r =
      if not setup.pool
      then fail Errors.Site.redis_redis_pool r
      else if not setup.subscribe
      then fail Errors.Site.redis_get_streamer r
      else loop (redis_step exp (consumer_config V decryption)) ms r
