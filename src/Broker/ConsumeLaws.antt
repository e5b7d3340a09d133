-- ===== src/Broker/ConsumeLaws.antt =====
-- What the consuming loops of src/workers/notif/mod.rs promise, message by message.
use hoopoe.Base.{
  ℕ, suc, Text, List, [], ◌∷◌, Bool, true, false, some, ◌≡◌, refl, arith, ◌⊎◌, done, is_utf8, ◌∙◌,
  ◌≢◌, text_eq-ne,
}
use hoopoe.Models.{SecureCellConfig}
use hoopoe.Service.{Services}
use hoopoe.Broker.{Kind, rmq, kafka, redis, config_key}
use hoopoe.Broker.Process.{check_channel, process}
use hoopoe.Broker.Consume.{
  running, returned, Run, Message, stop, loop, checked, spawned, rmq_step, kafka_step, redis_step,
  rmq_round, redis_round,
}

module _ (V : Services) where
  -- A configuration that the producer left under the consumer's key, and that differs from the
  -- consumer's in the secret or in the passphrase.
  pub record IsForeign (kind : Kind) (config : SecureCellConfig) (unique_key : Text) (s : V.Store)
      : Type 0 where
    pub stored : SecureCellConfig
    pub left : V.get s (config_key kind unique_key) ≡ some (V.encode_config stored)
    pub differs : (stored.passphrase ≢ config.passphrase) ⊎ (stored.secret_key ≢ config.secret_key)

  -- A message of the consumer of each broker.
  unfoldable pub step_of :
      Kind → ℕ → Bool → SecureCellConfig × Text → Message → Run V.Store → Run V.Store
  step_of rmq exp store_in_db config = rmq_step V exp store_in_db config
  step_of kafka exp store_in_db config = kafka_step V exp config
  step_of redis exp store_in_db config = redis_step V exp config

  -- A consumer that has returned; that of Kafka has received one more message and is closed.
  abbrev pub ended : Kind → Run V.Store → Run V.Store
  ended kafka r = record r {
    status = returned;
    received = suc r.received;
    committed = suc r.received;
  }
  ended _ r = record r { status = returned }

  ended_status : (kind : Kind) (r : Run V.Store) → (ended kind r).status ≢ running
  ended_status rmq r e = cc
  ended_status kafka r e = cc
  ended_status redis r e = cc

  check_channel_foreign :
      (kind : Kind) (config : SecureCellConfig) (unique_key : Text) (s : V.Store)
      → IsForeign kind config unique_key s
      → check_channel V kind s config unique_key ≡ done false
  unfolding check_channel
  check_channel_foreign kind config unique_key s f = ground (
    arith,
    V.exists-get s (config_key kind unique_key),
    f.left,
    V.decode-encode_config f.stored,
    f.differs,
    text_eq-ne f.stored.passphrase config.passphrase,
    text_eq-ne f.stored.secret_key config.secret_key,
  )

  loop_stopped :
      (step : Message → Run V.Store → Run V.Store) (ms : List Message) (r : Run V.Store)
      → r.status ≢ running
      → loop V step ms r ≡ r
  unfolding loop
  loop_stopped step [] r h = refl
  loop_stopped step (m ∷ ms) r h = ground arith

  loop_running :
      (step : Message → Run V.Store → Run V.Store) (m : Message) (ms : List Message)
      (r : Run V.Store)
      → r.status ≡ running
      → loop V step (m ∷ ms) r ≡ loop V step ms (step m r)
  unfolding loop
  loop_running step m ms r h = ground arith

  module _ (config : SecureCellConfig) (unique_key : Text) (m : Message) (r : Run V.Store)
      {bytes : Text} (up : r.status ≡ running) (connected : m.conn_ok ≡ true)
      (body : m.body ≡ some bytes) where
    checked_foreign :
        (kind : Kind) (go : Run V.Store → Run V.Store)
        → IsForeign kind config unique_key r.world.store
        → checked V kind (config, unique_key) m go r ≡ stop returned r
    unfolding checked
    checked_foreign kind go f =
        ground (arith, check_channel_foreign kind config unique_key r.world.store f)

    rmq_step_foreign :
        (exp : ℕ) (store_in_db : Bool)
        → IsForeign rmq config unique_key r.world.store
        → rmq_step V exp store_in_db (config, unique_key) m r ≡ stop returned r
    unfolding rmq_step
    rmq_step_foreign exp store_in_db f =
        rw (body, rmq_step) (checked_foreign rmq (rmq_round V exp store_in_db config m bytes) f)

    kafka_step_foreign :
        (exp : ℕ)
        → IsForeign kafka config unique_key r.world.store
        → kafka_step V exp (config, unique_key) m r ≡ ended kafka r
    unfolding kafka_step checked stop
    kafka_step_foreign exp f =
        ground (arith, body, check_channel_foreign kafka config unique_key r.world.store f)

    -- A round that stops ends the loop, whatever messages follow.
    loop_stops :
        (kind : Kind) (step : Message → Run V.Store → Run V.Store) (ms : List Message)
        → step m r ≡ ended kind r
        → loop V step (m ∷ ms) r ≡ ended kind r
    unfolding stop
    loop_stops kind step ms e =
        loop_running step m ms r up
        ∙ (rw e (loop_stopped step ms (ended kind r) (λ same. ended_status kind r same)))

    -- A consumer that meets, under its own key, another configuration than its own, with a
    -- connection to look it up, returns at that message: nothing is delivered, stored, cached,
    -- acknowledged or recorded by the code for it, nor for any message after it. So for all three
    -- brokers; but Kafka's client commits the offset of that message as it is closed.
    pub foreign_channel_stops :
        (kind : Kind) (exp : ℕ) (store_in_db : Bool) (ms : List Message)
        → IsForeign kind config unique_key r.world.store
        → loop V (step_of kind exp store_in_db (config, unique_key)) (m ∷ ms) r ≡ ended kind r
    unfolding redis_step step_of stop
    foreign_channel_stops rmq exp store_in_db ms f =
        loop_stops rmq (rmq_step V exp store_in_db (config, unique_key)) ms
          (rmq_step_foreign exp store_in_db f)
    foreign_channel_stops kafka exp store_in_db ms f =
        loop_stops kafka (kafka_step V exp (config, unique_key)) ms (kafka_step_foreign exp f)
    foreign_channel_stops redis exp store_in_db ms f =
        loop_stops redis (redis_step V exp (config, unique_key)) ms
          (checked_foreign redis (redis_round V exp config m) f)

    -- What follows a check that passes.
    pub rmq_step_safe :
        (exp : ℕ) (store_in_db : Bool)
        → check_channel V rmq r.world.store config unique_key ≡ done true
        → is_utf8 bytes ≡ true
        → m.ack_ok ≡ true
        → rmq_step V exp store_in_db (config, unique_key) m r ≡ record r {
          world = spawned V (process V exp store_in_db config m.env bytes r.world) r.world;
          acks = suc r.acks;
        }
    unfolding rmq_step rmq_round checked
    rmq_step_safe exp store_in_db safe u a = ground (arith, body, safe)
