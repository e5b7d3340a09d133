-- ===== src/Api/Register.antt =====
-- src/apis/v1/http/notif.rs, `register_notif`: which message the broker actor gets. The task that
-- sends it runs before the next request.
use hoopoe.Base.{
  Text, codes, List, [], ◌∷◌, ◌++◌, Bool, true, false, Option, none, some, Outcome, done, ◌>>=◌,
  unwrap, if◌then◌else◌,
}
use hoopoe.Models.{
  Response, Notice, reject, ok_status, not_acceptable_status, mailbox_channel_error_code,
}
use hoopoe.Errors
use hoopoe.Errors.{Site, HoopoeErrorResponse, new_error}
use hoopoe.Broker.Publish.{PublishNotifToRmq}
use hoopoe.Broker.Actor.{
  PublishNotifToKafka, PublishNotifToRedis, ConsumeNotifFromRmq, ConsumeNotifFromKafka,
  ConsumeNotifFromRedis, BrokerMessage, publish_rmq, publish_kafka, publish_redis, consume_rmq,
  consume_kafka, consume_redis,
}

pub record ProducerInfo : Type 0 where
  pub rmq : Option PublishNotifToRmq
  pub kafka : Option PublishNotifToKafka
  pub redis : Option PublishNotifToRedis

pub record ConsumerInfo : Type 0 where
  pub rmq : Option ConsumeNotifFromRmq
  pub kafka : Option ConsumeNotifFromKafka
  pub redis : Option ConsumeNotifFromRedis

pub record RegisterNotif : Type 0 where
  pub producer_info : Option ProducerInfo
  pub consumer_info : Option ConsumerInfo

abbrev pub app_name : Text
app_name = codes "Hoopoe"

unfoldable pub registered_exchange : Text → Text
registered_exchange given = app_name ++ (codes ".notif:" ++ given)

unfoldable pub registered_queue : Text → Text → Text
registered_queue tag queue = app_name ++ (codes "." ++ (tag ++ (codes ":" ++ queue)))

-- RabbitMQ before Kafka before Redis; with none of them the handler panics.
unfoldable pub register_producer : ProducerInfo → Outcome (BrokerMessage × Site)
unfolding registered_exchange
register_producer info = elim info.rmq [
  | some n ↦ done (
    publish_rmq (record n { exchange_name = registered_exchange n.exchange_name }),
    Errors.Site.register_producer_rmq,
  )
  | none ↦ elim info.kafka [
    | some n ↦ done (publish_kafka n, Errors.Site.register_producer_kafka)
    | none ↦ unwrap info.redis >>= λ n. done (publish_redis n, Errors.Site.register_producer_redis)
  ]
]

unfoldable pub register_consumer : ConsumerInfo → Outcome (BrokerMessage × Site)
unfolding registered_exchange registered_queue
register_consumer info = elim info.rmq [
  | some n ↦ done (
    consume_rmq (record n {
      exchange_name = registered_exchange n.exchange_name;
      queue = registered_queue n.tag n.queue;
    }),
    Errors.Site.register_consumer_rmq,
  )
  | none ↦ elim info.kafka [
    | some n ↦ done (consume_kafka n, Errors.Site.register_consumer_kafka)
    | none ↦ unwrap info.redis >>= λ n. done (consume_redis n, Errors.Site.register_consumer_redis)
  ]
]

-- The broker actor's mailbox, and the recorded errors.
pub record Mail : Type 0 where
  pub inbox : List BrokerMessage
  pub errors : List HoopoeErrorResponse

unfoldable pub send_to_broker : Bool → BrokerMessage × Site → Mail → Mail
unfolding new_error
send_to_broker up (msg, site) mail =
    if up
    then record mail { inbox = mail.inbox ++ msg ∷ [] }
    else record mail { errors = mail.errors ++ new_error mailbox_channel_error_code site true ∷ [] }

unfoldable pub registered : Notice → Response
registered message = record { status = ok_status; message = message; is_err = false; content = [] }

-- `token_time` is what the passport left in the depot; the body is none if it cannot be read.
unfoldable pub register_notif :
    Option Text → Option RegisterNotif → Bool → Mail → Outcome (Mail × Response)
unfolding register_producer register_consumer send_to_broker registered reject
register_notif token_time body up mail = do
  token ← unwrap token_time
  req ← unwrap body
  elim req.producer_info [
    | some info ↦ register_producer info >>= λ m.
        done (send_to_broker up m mail, registered Notice.producer_registered)
    | none ↦ elim req.consumer_info [
      | some info ↦ register_consumer info >>= λ m.
          done (send_to_broker up m mail, registered Notice.consumer_started)
      | none ↦ done (mail, reject not_acceptable_status Notice.no_register_info)
    ]
  ]
