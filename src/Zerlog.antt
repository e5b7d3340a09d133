-- ===== src/Zerlog.antt =====
-- src/workers/zerlog/mod.rs, the actor that publishes errors to RabbitMQ, and what
-- src/error/mod.rs, `HoopoeErrorResponse::new`, sends to it.
pub mod Laws
use hoopoe.Base.{
  ℕ, ℤ, Text, codes, List, [], ◌∷◌, ◌++◌, Bool, true, false, not, Option, none, some, Outcome, done,
  ◌>>=◌, if◌then◌else◌, ◌&&◌,
}
use hoopoe.Models.{NotifData, zerlog, storage_io_error_code}
use hoopoe.Errors
use hoopoe.Errors.{Site, HoopoeErrorResponse, new_error}
use hoopoe.Errors.Log.{ErrorInstance, LogEnv, wirte_async}
use hoopoe.Files.{Files}
use hoopoe.Broker.Publish.{ExchangeKind, exchange_kind, RmqAnswers, Published}

pub record ProduceNotif : Type 0 where
  pub notif_data : NotifData
  pub exchange_name : Text
  pub exchange_type : Text
  pub routing_key : Text

-- serde_json's texts, and the uuid and the time of one error.
pub record ZerlogApi : Type 0 where
  pub error_json : ErrorInstance → Text
  pub encode_produce : ProduceNotif → Text

pub record Report : Type 0 where
  pub files : Files
  pub outbox : List ProduceNotif

module _ (Z : ZerlogApi) where
  unfoldable pub zerlog_message : ErrorInstance → Text → ℤ → ProduceNotif
  zerlog_message e uuid now = record {
    notif_data = record {
      id = uuid;
      receiver_info = codes "0";
      action_data = Z.error_json e;
      actioner_info = codes "1";
      action_type = zerlog;
      fired_at = now;
      is_seen = false;
    };
    exchange_name = codes "Hoopoe:ZerlogExchange";
    exchange_type = codes "fanout";
    routing_key = [];
  }

  -- `new`: the log, then the message if the caller passed an address. Whether the actor takes it is
  -- not looked at.
  unfoldable pub new_instance :
      LogEnv → Bool → Bool → Text → ℤ → ErrorInstance → Report → Outcome Report
  unfolding zerlog_message
  new_instance env has_address up uuid now e r = do
    written ← wirte_async env e r.files
    done (record {
      files = written;
      outbox = if has_address && up then r.outbox ++ zerlog_message e uuid now ∷ [] else r.outbox;
    })

  storage_error : Site → List HoopoeErrorResponse
  unfolding new_error
  storage_error site = new_error storage_io_error_code site false ∷ []

  -- Here, unlike in the notification broker, a failed declaration of the exchange ends the task.
  unfoldable pub produce :
      RmqAnswers
      → Text
      → ProduceNotif
      → List HoopoeErrorResponse × Option (ExchangeKind × Published)
  unfolding storage_error
  produce a stringified msg =
      if not a.pool
      then (storage_error Errors.Site.zerlog_produce_pool, none)
      else if not a.channel
      then (storage_error Errors.Site.zerlog_create_channel, none)
      else if not a.exchange_declare
      then (storage_error Errors.Site.zerlog_exchange_declare, none)
      else if not a.publish
      then (storage_error Errors.Site.zerlog_basic_publish, none)
      else (
        if a.confirm then [] else storage_error Errors.Site.zerlog_get_confirmation,
        some (
          exchange_kind msg.exchange_type,
          record {
            exchange = msg.exchange_name;
            routing_key = msg.routing_key;
            payload = stringified;
          },
        ),
      )

  unfoldable pub handle_produce :
      RmqAnswers → ProduceNotif → List HoopoeErrorResponse × Option (ExchangeKind × Published)
  unfolding produce
  handle_produce a msg = produce a (Z.encode_produce msg) msg
