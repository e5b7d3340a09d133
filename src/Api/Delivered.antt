-- ===== src/Api/Delivered.antt =====
-- From the two requests of src/apis/v1/http/notif.rs, `register_notif`, to the websocket channel:
-- the handlers of src/workers/notif/mod.rs on what the broker actor is sent.
use hoopoe.Base.{Text, map, [], ◌∷◌, ◌++◌, List, true, none, some, done, ◌≡◌}
use hoopoe.Models.{Response, ok_status}
use hoopoe.Service.{Services}
use hoopoe.Service.Rabbit.{RabbitApi, Bound, Sent}
use hoopoe.Broker.{World, consumer_config}
use hoopoe.Broker.Consume.{Run, Setup, loop, rmq_step}
use hoopoe.Broker.Publish.{PublishNotifToRmq, Published, seal_notif}
use hoopoe.Broker.RoundTrip.{accepting, delivered}
use hoopoe.Broker.Actor.{
  ConsumeNotifFromRmq, BrokerMessage, publish_rmq, Binding, Outside, handle_message,
}
use hoopoe.Api.Register.{RegisterNotif, Mail, register_notif, registered_exchange, registered_queue}

abbrev pub ask_to_produce : PublishNotifToRmq → RegisterNotif
ask_to_produce p = record {
  producer_info = some (record { rmq = some p; kafka = none; redis = none });
  consumer_info = none;
}

abbrev pub ask_to_consume : ConsumeNotifFromRmq → RegisterNotif
ask_to_consume c = record {
  producer_info = none;
  consumer_info = some (record { rmq = some c; kafka = none; redis = none });
}

-- The request is answered with 200, and the broker actor gets the message.
pub record Sends (token : Text) (req : RegisterNotif) (mail : Mail) (msg : BrokerMessage)
    : Type 0 where
  pub answer : Response
  pub taken :
      register_notif (some token) (some req) true mail
      ≡ done (record mail { inbox = mail.inbox ++ msg ∷ [] }, answer)
  pub ok : answer.status ≡ ok_status

abbrev pub registered_producer : PublishNotifToRmq → PublishNotifToRmq
registered_producer p = record p { exchange_name = registered_exchange p.exchange_name }

abbrev pub registered_consumer : ConsumeNotifFromRmq → ConsumeNotifFromRmq
registered_consumer c = record c {
  exchange_name = registered_exchange c.exchange_name;
  queue = registered_queue c.tag c.queue;
}

abbrev pub all_set_up : Setup
all_set_up = record { pool = true; channel = true; declare = true; bind = true; consume = true }

-- Everything answers; the consumer is handed the texts.
abbrev pub answering : List Text → Outside
answering texts = record {
  rmq = accepting;
  kafka = record { redis_ok = true; config_ok = true; create = true; delivery = true };
  redis = record { redis_ok = true; config_ok = true; subs = 1 ∷ [] };
  setup = all_set_up;
  stream = record { pool = true; create = true; subscribe = true };
  deliveries = map delivered texts;
}

abbrev pub bound : Binding → Bound
bound b = record { queue = b.queue; exchange = b.exchange; key = b.binding_key }

abbrev pub sent_message : Published → Sent
sent_message q = record { exchange = q.exchange; key = q.routing_key; payload = q.payload }

module _ (V : Services) (K : RabbitApi) (p : PublishNotifToRmq) (c : ConsumeNotifFromRmq)
    (w : World V.Store) (keys : c.decryption_config ≡ p.encryption_config) where
  abbrev text : Text
  text = (seal_notif V p.notif_data p.encryption_config).text

  abbrev published : Published
  published = record {
    exchange = registered_exchange p.exchange_name;
    routing_key = p.routing_key;
    payload = text;
  }

  abbrev world_sent : World V.Store
  world_sent = (handle_message V (answering []) (publish_rmq (registered_producer p)) w).0

  -- The loop of the consumer's task, over what its queue hands out once it is there.
  abbrev pub goes_on : List Text → Run V.Store → Run V.Store
  goes_on texts =
      loop V (rmq_step V c.redis_cache_exp c.store_in_db (consumer_config V c.decryption_config))
        (map delivered texts)
