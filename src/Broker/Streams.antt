-- ===== src/Broker/Streams.antt =====
-- From a producer to a consumer through Kafka and through Redis: `publishToKafka`, `publishToRedis`,
-- `consumeFromKafka` and `consumeFromRedis` of src/workers/notif/mod.rs with one configuration.
use hoopoe.Base.{
  ℕ, ◌<◌, suc, Text, List, [], ◌∷◌, ◌++◌, true, Option, none, some, ◌≡◌, refl, arith, done, is_utf8,
  is_some, ◌∙◌, ap,
}
use hoopoe.Models.{NotifData, CryptoConfig}
use hoopoe.Service.{Services}
use hoopoe.Broker.{World, Kind, kafka, redis, config_key, notif_owner_key, consumer_config}
use hoopoe.Broker.CacheLaws.{events_of}
use hoopoe.Broker.Process.{
  check_channel, handle_event, send_to_ws, process, process_kafka, process_redis,
}
use hoopoe.Broker.ProcessLaws.{
  process_of_final, ws-handle_event, mailbox-handle_event, cache_event-completes,
}
use hoopoe.Broker.Consume.{
  running, Run, spawned, checked, commit, kafka_step, kafka_round, redis_step, redis_round,
}
use hoopoe.Broker.Delivery.{check_channel_absent}
use hoopoe.Broker.Publish.{
  publish_until_taken, seal_notif, seal_for, insert_headers, leave_config, publish_to_kafka,
  publish_to_redis,
}
use hoopoe.Broker.PublishLaws.{
  IsSealable, final_data-seal, text-seal-utf8, check_channel-leave_config,
}
use hoopoe.Broker.RoundTrip.{text_eq-config_key, all_up, delivered}

module _ (V : Services) where
  -- A producer in the clear leaves no configuration; nobody else may have left one under its key.
  abbrev pub IsUnclaimed : Kind → Option CryptoConfig → V.Store → Type 0
  IsUnclaimed kind none s = V.get s (config_key kind []) ≡ none
  IsUnclaimed kind (some c) s = Unit

  module _ (kind : Kind) (notif : NotifData) (w : World V.Store) where
    abbrev left : Option CryptoConfig → World V.Store
    left c = (seal_for V kind notif c w).0

    left_safe :
        (c : Option CryptoConfig)
        → IsUnclaimed kind c w.store
        → check_channel V kind (left c).store (consumer_config V c).0 (consumer_config V c).1
          ≡ done true
    unfolding seal_for consumer_config
    left_safe none free = check_channel_absent V kind w.store _ [] free
    left_safe (some c) free = check_channel-leave_config V kind notif (some c) w

    events_of-left :
        (c : Option CryptoConfig) (owner : Text)
        → events_of V (left c).store owner ≡ events_of V w.store owner
    unfolding seal_for leave_config events_of
    events_of-left none owner = refl
    events_of-left (some c) owner =
        let s = seal_notif V notif (some c) in
        ground (
          arith,
          V.get-set w.store (config_key kind s.unique_key) (V.encode_config s.config)
              (notif_owner_key owner),
          text_eq-config_key kind s.unique_key owner,
        )

    left_keeps : (c : Option CryptoConfig) → ((left c).ws ≡ w.ws) × ((left c).mailbox ≡ w.mailbox)
    unfolding seal_for leave_config
    left_keeps none = (refl, refl)
    left_keeps (some c) = (refl, refl)

  flag-handle_event :
      (exp : ℕ) (text : Text) (event : NotifData) (w : World V.Store)
      → is_some (events_of V w.store event.receiver_info) ≡ true
      → (handle_event V exp true all_up text event w).1 ≡ true
  unfolding handle_event
  flag-handle_event exp text event w readable =
      ground (arith, cache_event-completes V exp true event (send_to_ws V true text w))

  insert_headers-nil : (given : List (Text × Text)) → insert_headers given [] ≡ []
  unfolding insert_headers
  insert_headers-nil [] = refl
  insert_headers-nil (header ∷ rest) = insert_headers-nil rest

  module _ (notif : NotifData) (c : Option CryptoConfig) (w : World V.Store) (exp seen : ℕ)
      (sealable : IsSealable V notif c) (utf8 : is_utf8 (V.encode_notif notif) ≡ true)
      (readable : is_some (events_of V w.store notif.receiver_info) ≡ true) where
    abbrev text : Text
    text = (seal_notif V notif c).text

    abbrev run_after : Kind → Run V.Store
    run_after kind = record {
      world = left kind notif w c;
      acks = seen;
      received = seen;
      committed = seen;
      status = running;
    }

    abbrev handled : Kind → World V.Store
    handled kind =
        (handle_event V exp true all_up (V.encode_notif notif) notif (left kind notif w c)).0

    processed :
        (kind : Kind)
        → process V exp true (consumer_config V c).0 all_up text (left kind notif w c)
          ≡ done (handled kind, true)
    processed kind =
        process_of_final V exp true (consumer_config V c).0 all_up text (left kind notif w c)
          (V.encode_notif notif) notif (final_data-seal V notif c sealable utf8)
          (V.decode-encode_notif notif)
        ∙ ap (λ b. done (handled kind, b))
            (flag-handle_event exp (V.encode_notif notif) notif (left kind notif w c)
              (rw (events_of-left kind notif w c notif.receiver_info) readable))

    kafka_step_lem :
        IsUnclaimed kafka c w.store
        → kafka_step V exp (consumer_config V c) (delivered text) (run_after kafka) ≡ record {
          world = handled kafka;
          acks = suc seen;
          received = suc seen;
          committed = suc seen;
          status = running;
        }
    unfolding kafka_step checked kafka_round commit process_kafka
    kafka_step_lem free = ground (
      arith,
      left_safe kafka notif w c free,
      text-seal-utf8 V notif c sealable utf8,
      processed kafka,
    )

    redis_step_lem :
        IsUnclaimed redis c w.store
        → redis_step V exp (consumer_config V c) (delivered text) (run_after redis) ≡ record {
          world = handled redis;
          acks = seen;
          received = seen;
          committed = seen;
          status = running;
        }
    unfolding redis_step checked redis_round process_redis spawned
    redis_step_lem free = ground (arith, left_safe redis notif w c free, processed redis)

    handled_ws : (kind : Kind) → (handled kind).ws ≡ w.ws ++ V.encode_notif notif ∷ []
    handled_ws kind =
        ws-handle_event V exp true all_up (V.encode_notif notif) notif (left kind notif w c)
        ∙ (rw ((left_keeps kind notif w c).0))

    handled_mailbox : (kind : Kind) → (handled kind).mailbox ≡ w.mailbox ++ notif ∷ []
    handled_mailbox kind =
        let stored =
          mailbox-handle_event V exp true all_up (V.encode_notif notif) notif
            (left kind notif w c) in
        ground (
          arith,
          stored,
          (left_keeps kind notif w c).1,
          events_of-left kind notif w c notif.receiver_info,
          readable,
        )

    -- What a run is after a delivery, with so many acknowledgements.
    pub record Arrived (count : ℕ) (r : Run V.Store) : Type 0 where
      pub status : r.status ≡ running
      pub acks : r.acks ≡ count
      pub ws : r.world.ws ≡ w.ws ++ V.encode_notif notif ∷ []
      pub mailbox : r.world.mailbox ≡ w.mailbox ++ notif ∷ []

    arrived :
        (kind : Kind) (count : ℕ) (r : Run V.Store)
        → r ≡ record {
          world = handled kind;
          acks = count;
          received = count;
          committed = count;
          status = running;
        }
        → Arrived count r
    arrived kind count r e = record {
      status = ap (λ x. x.status) e;
      acks = ap (λ x. x.acks) e;
      ws = ap (λ x. x.world.ws) e ∙ handled_ws kind;
      mailbox = ap (λ x. x.world.mailbox) e ∙ handled_mailbox kind;
    }

    -- A producer sends a notification through Kafka or Redis, in the clear or sealed with keys that
    -- are not empty, and every service answers; in the clear, no configuration may stand under the
    -- broker's empty key. Kafka gets a record for the topic with the receiver as its key and without
    -- headers, whatever headers were given; the producer for Redis ends at the first answer, which
    -- counts a subscriber. A consumer with the producer's configuration, given the text, goes on; the
    -- plain text is then last in the websocket channel and the notification last in the mutator's
    -- mailbox, and only Kafka's consumer acknowledges. The receiver's cached list must be readable.
    pub streams_deliver :
        (topic : Text) (headers : List (Text × Text)) (subs : ℕ) (later : List ℕ)
        → 0 < subs
        → IsUnclaimed kafka c w.store
        → IsUnclaimed redis c w.store
        → let to_kafka =
            publish_to_kafka V
              (record { redis_ok = true; config_ok = true; create = true; delivery = true })
              topic
              headers
              notif
              c
              w in
          let to_redis =
            publish_to_redis V
              (record { redis_ok = true; config_ok = true; subs = subs ∷ later })
              notif
              c
              w in
          let k : Run V.Store = record {
            world = to_kafka.0;
            acks = seen;
            received = seen;
            committed = seen;
            status = running;
          } in
          let r : Run V.Store = record {
            world = to_redis.0;
            acks = seen;
            received = seen;
            committed = seen;
            status = running;
          } in
          (to_kafka.1
            ≡ some
                (record { topic = topic; key = notif.receiver_info; payload = text; headers = [] }))
          × (to_redis.1 ≡ some (text, some 1))
          × Arrived (suc seen) (kafka_step V exp (consumer_config V c) (delivered text) k)
          × Arrived seen (redis_step V exp (consumer_config V c) (delivered text) r)
    unfolding publish_to_kafka publish_to_redis seal_for publish_until_taken
    streams_deliver topic headers subs later some_subs free free' = (
      rw (insert_headers-nil headers),
      ground (arith, some_subs),
      arrived kafka (suc seen) _ (kafka_step_lem free),
      arrived redis seen _ (redis_step_lem free'),
    )
