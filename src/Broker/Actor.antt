-- ===== src/Broker/Actor.antt =====
-- src/workers/notif/mod.rs: the messages of `NotifBrokerActor` and its handlers. `local_spawn` only
-- picks the thread on which the spawned task runs; the task runs before the next message.
use hoopoe.Base.{ℕ, Text, List, Bool, false, Option, if◌then◌else◌}
use hoopoe.Models.{NotifData, CryptoConfig}
use hoopoe.Service.{Services}
use hoopoe.Broker.{World}
use hoopoe.Broker.Consume.{
  running, Run, Message, Setup, StreamSetup, consume_from_rmq, consume_from_kafka,
  consume_from_redis,
}
use hoopoe.Broker.Publish.{
  PublishNotifToRmq, Published, RmqAnswers, KafkaRecord, KafkaAnswers, RedisAnswers,
  handle_publish_rmq, publish_to_kafka, publish_to_redis,
}

-- The headers are pairs of a key and a value.
pub record PublishNotifToKafka : Type 0 where
  pub topic : Text
  pub brokers : Text
  pub partitions : ℕ
  pub headers : List (Text × Text)
  pub local_spawn : Bool
  pub notif_data : NotifData
  pub encryption_config : Option CryptoConfig

pub record PublishNotifToRedis : Type 0 where
  pub channel : Text
  pub local_spawn : Bool
  pub notif_data : NotifData
  pub encryption_config : Option CryptoConfig

pub record ConsumeNotifFromRmq : Type 0 where
  pub queue : Text
  pub exchange_name : Text
  pub routing_key : Text
  pub tag : Text
  pub redis_cache_exp : ℕ
  pub local_spawn : Bool
  pub store_in_db : Bool
  pub decryption_config : Option CryptoConfig

pub record ConsumeNotifFromKafka : Type 0 where
  pub topics : List Text
  pub consumer_group_id : Text
  pub brokers : Text
  pub redis_cache_exp : ℕ
  pub decryption_config : Option CryptoConfig

pub record ConsumeNotifFromRedis : Type 0 where
  pub channel : Text
  pub redis_cache_exp : ℕ
  pub decryption_config : Option CryptoConfig

pub record HealthMsg : Type 0 where
  pub shutdown : Bool

pub data BrokerMessage : Type 0 where
  publish_rmq : PublishNotifToRmq → BrokerMessage
  publish_kafka : PublishNotifToKafka → BrokerMessage
  publish_redis : PublishNotifToRedis → BrokerMessage
  consume_rmq : ConsumeNotifFromRmq → BrokerMessage
  consume_kafka : ConsumeNotifFromKafka → BrokerMessage
  consume_redis : ConsumeNotifFromRedis → BrokerMessage
  health : HealthMsg → BrokerMessage

-- The queue that an RMQ consumer binds, to which exchange and under which key.
pub record Binding : Type 0 where
  pub queue : Text
  pub exchange : Text
  pub binding_key : Text
  pub consumer_tag : Text

unfoldable pub binding_of : ConsumeNotifFromRmq → Binding
binding_of msg = record {
  queue = msg.queue;
  exchange = msg.exchange_name;
  binding_key = msg.routing_key;
  consumer_tag = msg.tag;
}

-- How the brokers answer while one message is handled, and what they hand to its consumer.
pub record Outside : Type 0 where
  pub rmq : RmqAnswers
  pub kafka : KafkaAnswers
  pub redis : RedisAnswers
  pub setup : Setup
  pub stream : StreamSetup
  pub deliveries : List Message

-- What a message makes the actor do.
pub data Effect (Store : Type 0) : Type 0 where
  sent_rmq : Option Published → Effect Store
  sent_kafka : Option KafkaRecord → Effect Store
  sent_redis : Text → Option (Text × Option ℕ) → Effect Store
  consumed_rmq : Binding → Run Store → Effect Store
  consumed_kafka : List Text → Run Store → Effect Store
  consumed_redis : Text → Run Store → Effect Store
  alive : Bool → Effect Store

module _ (V : Services) where
  unfoldable pub fresh : World V.Store → Run V.Store
  fresh w = record { world = w; acks = 0; received = 0; committed = 0; status = running }

  unfoldable pub handle_publish_redis :
      RedisAnswers → PublishNotifToRedis → World V.Store → World V.Store × Effect V.Store
  handle_publish_redis a msg w =
      let (w', sent) = publish_to_redis V a msg.notif_data msg.encryption_config w in
      (w', sent_redis msg.channel sent)

  unfoldable pub handle_publish_kafka :
      KafkaAnswers → PublishNotifToKafka → World V.Store → World V.Store × Effect V.Store
  handle_publish_kafka a msg w =
      let (w', sent) =
        publish_to_kafka V a msg.topic msg.headers msg.notif_data msg.encryption_config w in
      (w', sent_kafka sent)

  unfoldable pub handle_consume_rmq :
      Setup → List Message → ConsumeNotifFromRmq → World V.Store → World V.Store × Effect V.Store
  unfolding fresh binding_of
  handle_consume_rmq setup ms msg w =
      let r =
        consume_from_rmq V setup msg.redis_cache_exp msg.store_in_db msg.decryption_config ms
          (fresh w) in
      (r.world, consumed_rmq (binding_of msg) r)

  unfoldable pub handle_consume_kafka :
      StreamSetup
      → List Message
      → ConsumeNotifFromKafka
      → World V.Store
      → World V.Store × Effect V.Store
  unfolding fresh
  handle_consume_kafka setup ms msg w =
      let r = consume_from_kafka V setup msg.redis_cache_exp msg.decryption_config ms (fresh w) in
      (r.world, consumed_kafka msg.topics r)

  unfoldable pub handle_consume_redis :
      StreamSetup
      → List Message
      → ConsumeNotifFromRedis
      → World V.Store
      → World V.Store × Effect V.Store
  unfolding fresh
  handle_consume_redis setup ms msg w =
      let r = consume_from_redis V setup msg.redis_cache_exp msg.decryption_config ms (fresh w) in
      (r.world, consumed_redis msg.channel r)

  unfoldable pub handle_health : HealthMsg → Effect V.Store
  handle_health msg = alive (if msg.shutdown then false else Bool.true)

  unfoldable pub handle_message :
      Outside → BrokerMessage → World V.Store → World V.Store × Effect V.Store
  unfolding handle_publish_redis handle_publish_kafka handle_consume_rmq handle_consume_kafka
      handle_consume_redis handle_health
  handle_message o (publish_rmq msg) w =
      let (w', sent) = handle_publish_rmq V o.rmq msg w in (w', sent_rmq sent)
  handle_message o (publish_kafka msg) w = handle_publish_kafka o.kafka msg w
  handle_message o (publish_redis msg) w = handle_publish_redis o.redis msg w
  handle_message o (consume_rmq msg) w = handle_consume_rmq o.setup o.deliveries msg w
  handle_message o (consume_kafka msg) w = handle_consume_kafka o.stream o.deliveries msg w
  handle_message o (consume_redis msg) w = handle_consume_redis o.stream o.deliveries msg w
  handle_message o (health msg) w = (w, handle_health msg)
