-- ===== src/Broker/RoundTrip.antt =====
-- From a producer to a consumer through RabbitMQ: src/workers/notif/mod.rs, `PublishNotifToRmq` and
-- `consumeFromRmq` with one and the same configuration.
use hoopoe.Base.{
  ℕ, suc, Text, [], ◌∷◌, ◌++◌, Bool, true, false, Option, some, if◌then◌else◌, ◌≡◌, refl, arith,
  done, is_utf8, text_eq, is_some, ◌∙◌, ap,
}
use hoopoe.Service.{Services}
use hoopoe.Broker.{World, Env, Kind, rmq, config_key, notif_owner_key, consumer_config}
use hoopoe.Broker.CacheLaws.{events_of}
use hoopoe.Broker.Process.{check_channel, handle_event}
use hoopoe.Broker.ProcessLaws.{process_of_final, ws-handle_event, mailbox-handle_event}
use hoopoe.Broker.Consume.{running, Run, Message, spawned, rmq_step}
use hoopoe.Broker.ConsumeLaws.{rmq_step_safe}
use hoopoe.Broker.Publish.{PublishNotifToRmq, Published, RmqAnswers, seal_notif, handle_publish_rmq}
use hoopoe.Broker.PublishLaws.{
  IsSealable, final_data-seal, text-seal-utf8, check_channel-leave_config,
}

-- A configuration's key is never a receiver's.
pub text_eq-config_key :
    (kind : Kind) (u owner : Text) → text_eq (config_key kind u) (notif_owner_key owner) ≡ false
unfolding config_key notif_owner_key text_eq
text_eq-config_key Kind.rmq u owner = refl
text_eq-config_key Kind.kafka u owner = refl
text_eq-config_key Kind.redis u owner = refl

abbrev pub all_up : Env
all_up = record { pool_ok = true; ws_open = true; mutator_up = true }

-- The broker takes the message and everything answers.
abbrev pub accepting : RmqAnswers
accepting = record {
  redis_ok = true;
  pool = true;
  channel = true;
  exchange_declare = true;
  publish = true;
  confirm = true;
}

abbrev pub delivered : Text → Message
delivered text = record { body = some text; conn_ok = true; env = all_up; ack_ok = true }

module _ (V : Services) where
  module _ (msg : PublishNotifToRmq) (w : World V.Store) where
    abbrev sent : World V.Store × Option Published
    sent = handle_publish_rmq V accepting msg w

    abbrev payload : Text
    payload = (seal_notif V msg.notif_data msg.encryption_config).text

    handle_publish_rmq-sends :
        sent.1
        ≡ some (record {
          exchange = msg.exchange_name;
          routing_key = msg.routing_key;
          payload = payload;
        })
    unfolding handle_publish_rmq
    handle_publish_rmq-sends = refl

    events_of-sent : (owner : Text) → events_of V sent.0.store owner ≡ events_of V w.store owner
    unfolding handle_publish_rmq events_of
    events_of-sent owner =
        let s = seal_notif V msg.notif_data msg.encryption_config in
        ground (
          arith,
          V.get-set w.store (config_key rmq s.unique_key) (V.encode_config s.config)
              (notif_owner_key owner),
          text_eq-config_key rmq s.unique_key owner,
        )

    sent_safe :
        check_channel V rmq sent.0.store
          (consumer_config V msg.encryption_config).0
          (consumer_config V msg.encryption_config).1
        ≡ done true
    unfolding handle_publish_rmq
    sent_safe = check_channel-leave_config V rmq msg.notif_data msg.encryption_config w

    world-sent : (sent.0.ws ≡ w.ws) × (sent.0.mailbox ≡ w.mailbox)
    unfolding handle_publish_rmq
    world-sent = (refl, refl)

    module _ (exp : ℕ) (store_in_db : Bool) (acks : ℕ)
        (sealable : IsSealable V msg.notif_data msg.encryption_config)
        (utf8 : is_utf8 (V.encode_notif msg.notif_data) ≡ true)
        (readable : is_some (events_of V w.store msg.notif_data.receiver_info) ≡ true) where
      abbrev before : Run V.Store
      before = record { world = sent.0; acks = acks; received = 0; committed = 0; status = running }

      abbrev after : Run V.Store
      after =
          rmq_step V exp store_in_db (consumer_config V msg.encryption_config) (delivered payload)
            before

      after_lem : after ≡ record {
        world =
            (handle_event V exp store_in_db all_up
              (V.encode_notif msg.notif_data)
              msg.notif_data
              sent.0).0;
        acks = suc acks;
        received = 0;
        committed = 0;
        status = running;
      }
      unfolding spawned
      after_lem =
          rmq_step_safe V (consumer_config V msg.encryption_config).0
            (consumer_config V msg.encryption_config).1 (delivered payload) before refl refl refl
            exp store_in_db sent_safe
            (text-seal-utf8 V msg.notif_data msg.encryption_config sealable utf8) refl
          ∙ rw (
              process_of_final V exp store_in_db (consumer_config V msg.encryption_config).0 all_up
                payload sent.0 (V.encode_notif msg.notif_data) msg.notif_data
                (final_data-seal V msg.notif_data msg.encryption_config sealable utf8)
                (V.decode-encode_notif msg.notif_data))

      -- A producer sends a notification, in the clear or sealed with keys that are not empty, and
      -- every service answers. Its message goes to the exchange under the routing key, and a
      -- consumer with the producer's configuration, given that message, goes on and acknowledges
      -- it. The plain text of the notification is then last in the websocket channel, and the
      -- notification is last in the mutator's mailbox if the consumer stores; the receiver's
      -- cached list must be readable.
      pub rmq_delivers :
          (sent.1
            ≡ some (record {
              exchange = msg.exchange_name;
              routing_key = msg.routing_key;
              payload = payload;
            }))
          × (after.status ≡ running)
          × (after.acks ≡ suc acks)
          × (after.world.ws ≡ w.ws ++ V.encode_notif msg.notif_data ∷ [])
          × (after.world.mailbox
              ≡ (if store_in_db then w.mailbox ++ msg.notif_data ∷ [] else w.mailbox))
      rmq_delivers =
          let text = V.encode_notif msg.notif_data in
          let sent_ws = ws-handle_event V exp store_in_db all_up text msg.notif_data sent.0 in
          let stored = mailbox-handle_event V exp store_in_db all_up text msg.notif_data sent.0 in
          (
            handle_publish_rmq-sends,
            ap (λ r. r.status) after_lem,
            ap (λ r. r.acks) after_lem,
            ap (λ r. r.world.ws) after_lem ∙ sent_ws ∙ (rw world-sent.0),
            ap (λ r. r.world.mailbox) after_lem
                ∙ ground (arith, stored, world-sent.1, events_of-sent msg.notif_data.receiver_info),
          )
