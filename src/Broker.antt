-- ===== src/Broker.antt =====
-- src/workers/notif/mod.rs, `NotifBrokerActor`: what its consumers and producers share. The state
-- outside is Redis, the channel to the websocket server, the mailbox of the mutator actor that
-- stores notifications, and the recorded errors. A spawned task runs before the next message.
pub mod Cache
pub mod Process
pub mod Consume
pub mod Publish
pub mod CacheLaws
pub mod CacheMap
pub mod ProcessLaws
pub mod ConsumeLaws
pub mod Delivery
pub mod Commit
pub mod PublishLaws
pub mod RoundTrip
pub mod Race
pub mod Actor
pub mod Streams
use hoopoe.Base.{ℕ, Text, codes, List, [], ◌∷◌, ◌++◌, Bool, Option, none, some}
use hoopoe.Models.{NotifData, CryptoConfig, SecureCellConfig}
use hoopoe.Errors.{HoopoeErrorResponse}
use hoopoe.Service.{Services}

pub record World (Store : Type 0) : Type 0 where
  pub store : Store
  pub ws : List Text
  pub mailbox : List NotifData
  pub errors : List HoopoeErrorResponse

-- How the services answer one message: whether the Redis pool gives a connection to the cache
-- step, whether the websocket channel is open, and whether the mutator actor takes messages.
pub record Env : Type 0 where
  pub pool_ok : Bool
  pub ws_open : Bool
  pub mutator_up : Bool

pub data Kind : Type 0 where
  rmq kafka redis : Kind

config_prefix : Kind → Text
config_prefix rmq = codes "Rmq_SecureCellConfig-"
config_prefix kafka = codes "Kafka_SecureCellConfig-"
config_prefix redis = codes "Redis_SecureCellConfig-"

-- The key under which a producer leaves its configuration for the consumers.
unfoldable pub config_key : Kind → Text → Text
unfolding config_prefix
config_key kind unique_key = config_prefix kind ++ unique_key

unfoldable pub notif_owner_key : Text → Text
notif_owner_key owner = codes "notif_owner:" ++ owner

abbrev pub default_config : SecureCellConfig
default_config = record { secret_key = []; passphrase = []; payload = [] }

unfoldable pub record_errors :
    {Store : Type 0} → List HoopoeErrorResponse → World Store → World Store
record_errors es w = record w { errors = w.errors ++ es }

module _ (V : Services) where
  unfoldable pub seal_config : CryptoConfig → SecureCellConfig
  seal_config c = record {
    secret_key = V.hex_encode c.secret;
    passphrase = V.hex_encode c.passphrase;
    payload = [];
  }

  -- A consumer's configuration and unique key.
  unfoldable pub consumer_config : Option CryptoConfig → SecureCellConfig × Text
  unfolding seal_config
  consumer_config none = (default_config, [])
  consumer_config (some c) = (seal_config c, c.unique_key)
