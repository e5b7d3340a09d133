-- ===== src/Broker/Publish.antt =====
-- The producers of src/workers/notif/mod.rs: the handlers of `PublishNotifToRmq`,
-- `PublishNotifToRedis` and `PublishNotifToKafka`, and what they send to the brokers.
use hoopoe.Base.{
  ℕ, suc, Text, codes, List, [], ◌∷◌, ◌++◌, Bool, true, not, ◌&&◌, Option, none, some,
  if◌then◌else◌, text_eq, ltb, is_some,
}
use hoopoe.Models.{NotifData, CryptoConfig, SecureCellConfig, storage_io_error_code}
use hoopoe.Errors
use hoopoe.Errors.{Site, HoopoeErrorResponse, new_error}
use hoopoe.Service.{Services}
use hoopoe.Crypter.{encrypt}
use hoopoe.Broker.{
  World, Kind, rmq, kafka, redis, config_key, default_config, record_errors, seal_config,
}

pub data ExchangeKind : Type 0 where
  fanout direct headers topic : ExchangeKind

unfoldable pub exchange_kind : Text → ExchangeKind
exchange_kind t =
    if text_eq t (codes "fanout")
    then fanout
    else if text_eq t (codes "direct")
    then direct
    else if text_eq t (codes "headers")
    then headers
    else topic

pub record PublishNotifToRmq : Type 0 where
  pub local_spawn : Bool
  pub notif_data : NotifData
  pub exchange_name : Text
  pub exchange_type : Text
  pub routing_key : Text
  pub encryption_config : Option CryptoConfig

-- A message as it goes to an exchange.
pub record Published : Type 0 where
  pub exchange : Text
  pub routing_key : Text
  pub payload : Text

-- How RabbitMQ answers one publication, and whether Redis gives the connection for the configuration.
pub record RmqAnswers : Type 0 where
  pub redis_ok : Bool
  pub pool : Bool
  pub channel : Bool
  pub exchange_declare : Bool
  pub publish : Bool
  pub confirm : Bool

-- The text to send, the configuration and the unique key to leave in Redis, the errors.
pub record Sealed : Type 0 where
  pub text : Text
  pub config : SecureCellConfig
  pub unique_key : Text
  pub errors : List HoopoeErrorResponse

pub record KafkaRecord : Type 0 where
  pub topic : Text
  pub key : Text
  pub payload : Text
  pub headers : List (Text × Text)

-- Whether Redis gives the connection that the producer asks for first, and the one for the
-- configuration; whether Kafka's producer is created and the record is delivered.
pub record KafkaAnswers : Type 0 where
  pub redis_ok : Bool
  pub config_ok : Bool
  pub create : Bool
  pub delivery : Bool

-- Each header goes into a clone that is dropped, and the loop leaves `headers` as it was.
unfoldable pub insert_headers : List (Text × Text) → List (Text × Text) → List (Text × Text)
insert_headers [] owned = owned
insert_headers (header ∷ rest) owned =
    let dropped = owned ++ header ∷ [] in insert_headers rest owned

-- The same for Redis, and the numbers of receivers that it answers.
pub record RedisAnswers : Type 0 where
  pub redis_ok : Bool
  pub config_ok : Bool
  pub subs : List ℕ

-- The loop that publishes once a second until a subscriber takes the message: `subs` holds the
-- numbers of receivers that Redis answers. The result counts the rounds; `none` goes on waiting.
unfoldable pub publish_until_taken : List ℕ → Option ℕ
publish_until_taken [] = none
publish_until_taken (subs ∷ rest) =
    let later = publish_until_taken rest in
    if ltb 0 subs then some 1 else elim later [ none ↦ none | some n ↦ some (suc n) ]

module _ (V : Services) where
  -- The configuration is saved before the data goes into it.
  unfoldable pub seal_notif : NotifData → Option CryptoConfig → Sealed
  seal_notif notif none = record {
    text = V.encode_notif notif;
    config = default_config;
    unique_key = [];
    errors = [];
  }
  seal_notif notif (some c) =
      let (text, config, errors) = encrypt V (V.encode_notif notif) (seal_config V c) in
      record { text = text; config = seal_config V c; unique_key = c.unique_key; errors = errors }

  -- The configuration as the consumers will look it up.
  unfoldable pub leave_config : Kind → SecureCellConfig → Text → World V.Store → World V.Store
  leave_config kind config unique_key w = record w {
    store = V.set w.store (config_key kind unique_key) (V.encode_config config);
  }

  storage_error : Site → World V.Store → World V.Store
  unfolding record_errors new_error
  storage_error site = record_errors (new_error storage_io_error_code site true ∷ [])

  -- A failed declaration of the exchange is recorded, and the message is sent all the same.
  send_to_exchange : RmqAnswers → Published → World V.Store → World V.Store × Option Published
  unfolding storage_error
  send_to_exchange a p w =
      if not a.pool
      then (storage_error Errors.Site.produce_pool w, none)
      else if not a.channel
      then (storage_error Errors.Site.create_channel w, none)
      else (let w1 =
            if a.exchange_declare then w else storage_error Errors.Site.exchange_declare w in
          if not a.publish
          then (storage_error Errors.Site.basic_publish w1, none)
          else if a.confirm
          then (w1, some p)
          else (storage_error Errors.Site.get_confirmation w1, some p))

  -- Without the connection for the configuration the task panics.
  unfoldable pub publish_to_rmq :
      RmqAnswers
      → Text
      → PublishNotifToRmq
      → SecureCellConfig
      → Text
      → World V.Store
      → World V.Store × Option Published
  unfolding send_to_exchange leave_config
  publish_to_rmq a text msg config unique_key w =
      if a.redis_ok
      then send_to_exchange a
          (record { exchange = msg.exchange_name; routing_key = msg.routing_key; payload = text })
          (leave_config rmq config unique_key w)
      else (w, none)

  unfoldable pub handle_publish_rmq :
      RmqAnswers → PublishNotifToRmq → World V.Store → World V.Store × Option Published
  unfolding publish_to_rmq record_errors
  handle_publish_rmq a msg w =
      let s = seal_notif msg.notif_data msg.encryption_config in
      publish_to_rmq a s.text msg s.config s.unique_key (record_errors s.errors w)

  -- Redis and Kafka save the configuration only if there is one.
  unfoldable pub seal_for :
      Kind → NotifData → Option CryptoConfig → World V.Store → World V.Store × Text
  unfolding leave_config record_errors
  seal_for kind notif encryption w =
      let s = seal_notif notif encryption in
      let w1 = if is_some encryption then leave_config kind s.config s.unique_key w else w in
      (record_errors s.errors w1, s.text)

  -- The text that is sent until a subscriber takes it, if one is. A missing connection is recorded;
  -- where the one for the configuration is missing the task panics.
  unfoldable pub publish_to_redis :
      RedisAnswers
      → NotifData
      → Option CryptoConfig
      → World V.Store
      → World V.Store × Option (Text × Option ℕ)
  unfolding seal_for publish_until_taken storage_error
  publish_to_redis a notif encryption w =
      if not a.redis_ok
      then (storage_error Errors.Site.publish_redis_pool w, none)
      else if not a.config_ok && is_some encryption
      then (w, none)
      else (let (w1, text) = seal_for redis notif encryption w in
          (w1, some (text, publish_until_taken a.subs)))

  -- The receiver is the partition key.
  unfoldable pub publish_to_kafka :
      KafkaAnswers
      → Text
      → List (Text × Text)
      → NotifData
      → Option CryptoConfig
      → World V.Store
      → World V.Store × Option KafkaRecord
  unfolding seal_for storage_error insert_headers
  publish_to_kafka a name given notif encryption w =
      if not a.redis_ok
      then (storage_error Errors.Site.publish_kafka_pool w, none)
      else if not a.config_ok && is_some encryption
      then (w, none)
      else (let (w1, text) = seal_for kafka notif encryption w in
          if not a.create
          then (storage_error Errors.Site.create_producer w1, none)
          else if not a.delivery
          then (storage_error Errors.Site.delivery_status w1, none)
          else (
            w1,
            some (record {
              topic = name;
              key = notif.receiver_info;
              payload = text;
              headers = insert_headers given [];
            }),
          ))
