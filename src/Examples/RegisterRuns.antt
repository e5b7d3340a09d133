-- ===== src/Examples/RegisterRuns.antt =====
-- The theorems on src/apis/v1/http/notif.rs, `register_notif`, at concrete inputs.
use hoopoe.Base.{
  Text, codes, List, [], ◌∷◌, ◌++◌, Bool, true, false, ◌&&◌, ◌||◌, if◌then◌else◌, text_eq,
  text_eq_refl, arith, some, done, ◌≡◌, refl,
}
use hoopoe.Models.{Notice}
use hoopoe.Errors.{new_error, Site}
use hoopoe.Models.{mailbox_channel_error_code}
use hoopoe.Service.Rabbit.{RabbitApi, Bound, Sent}
use hoopoe.Broker.Actor.{ConsumeNotifFromRmq}
use hoopoe.Api.Register.{Mail, register_notif, registered}
use hoopoe.Api.Delivered.{ask_to_consume}
use hoopoe.Examples.BrokerRuns.{keys}

abbrev consumer : ConsumeNotifFromRmq
consumer = record {
  queue = codes "q";
  exchange_name = codes "hoops";
  routing_key = codes "r";
  tag = codes "t";
  redis_cache_exp = 60;
  local_spawn = true;
  store_in_db = true;
  decryption_config = some keys;
}

abbrev no_mail : Mail
no_mail = record { inbox = []; errors = [] }

-- A broker: its bindings, and what has come into each queue.
pub record Queues : Type 0 where
  pub bindings : List Bound
  pub contents : Text → List Text

abbrev any_fits : Text → Sent → List Bound → Bool
any_fits queue m [] = false
any_fits queue m (b ∷ bs) =
    (text_eq b.queue queue && (text_eq b.exchange m.exchange && text_eq b.key m.key))
    || any_fits queue m bs

abbrev bind_queue : Bound → Queues → Queues
bind_queue b s = record s { bindings = b ∷ s.bindings }

abbrev send_message : Sent → Queues → Queues
send_message m s = record s {
  contents = λ queue.
      if any_fits queue m s.bindings then s.contents queue ++ m.payload ∷ [] else s.contents queue;
}

arrived-send :
    (b : Bound) (m : Sent) (s : Queues)
    → m.exchange ≡ b.exchange
    → m.key ≡ b.key
    → (send_message m (bind_queue b s)).contents b.queue
      ≡ (bind_queue b s).contents b.queue ++ m.payload ∷ []
arrived-send b m s e e' =
    ground (arith, e, e', text_eq_refl b.queue, text_eq_refl b.exchange, text_eq_refl b.key)

abbrev rabbit : RabbitApi
rabbit = record {
  State = Queues;
  bind = bind_queue;
  send = send_message;
  arrived = λ s queue. s.contents queue;
  arrived-bind = λ b s. refl;
  arrived-send = arrived-send;
}

abbrev no_queues : Queues
no_queues = record { bindings = []; contents = λ queue. [] }

abbrev refused_mail : Mail
refused_mail = record {
  inbox = [];
  errors = new_error mailbox_channel_error_code Site.register_consumer_rmq true ∷ [];
}

refused :
    register_notif (some (codes "tok")) (some (ask_to_consume consumer)) false no_mail
    ≡ done (refused_mail, registered Notice.consumer_started)
unfolding register_notif
refused = refl
