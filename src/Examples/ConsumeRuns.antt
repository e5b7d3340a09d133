-- ===== src/Examples/ConsumeRuns.antt =====
-- The theorems on the consuming loops of src/workers/notif/mod.rs at concrete inputs.
use hoopoe.Base.{
  ◌⊎◌, codes, List, [], ◌∷◌, true, none, some, ◌≡◌, ◌≢◌, refl, text_eq, is_utf8, inr, done,
}
use hoopoe.Models.{SecureCellConfig, codec_error_code}
use hoopoe.Errors.{new_error}
use hoopoe.Broker.{World, Kind, default_config, config_key, record_errors}
use hoopoe.Broker.Process.{process_kafka, check_channel, final_data}
use hoopoe.Broker.Consume.{checked, kafka_round, Run, Message, Status, loop, rmq_step, kafka_step}
use hoopoe.Broker.ConsumeLaws.{IsForeign, step_of, foreign_channel_stops}
use hoopoe.Broker.Cache.{cache_event}
use hoopoe.Broker.Commit.{kafka_commit_after_processing}
use hoopoe.Errors.{Site}
use hoopoe.Broker.Delivery.{undecodable_message}
use hoopoe.Broker.Process.{handle_event}
use hoopoe.Examples.Wire.{take_text, decode_notif}
use hoopoe.Examples.Toy.{toy, Entry}
use hoopoe.Examples.Wire.{encode_notif, put_notif, encode_config, get_notif}
use hoopoe.Examples.BrokerRuns.{notif, idle}

abbrev answer : Message
answer = record {
  body = some (codes "x");
  conn_ok = true;
  ack_ok = true;
  env = record { pool_ok = true; ws_open = true; mutator_up = true };
}

abbrev other_config : SecureCellConfig
other_config = record { secret_key = codes "k"; passphrase = codes "p"; payload = [] }

abbrev foreign_world : World (List Entry)
foreign_world = record idle {
  store =
      record {
        key = config_key Kind.kafka (codes "u");
        value = encode_config other_config;
        expiry = none;
      }
      ∷ [];
}

left_config :
    toy.get foreign_world.store (config_key Kind.kafka (codes "u"))
    ≡ some (encode_config other_config)
unfolding config_key text_eq
left_config = refl

key_differs : codes "k" ≢ []
key_differs e = cc

foreign : IsForeign toy Kind.kafka default_config (codes "u") foreign_world.store
foreign = record { stored = other_config; left = left_config; differs = inr key_differs }

abbrev foreign_run : Run (List Entry)
foreign_run = record {
  world = foreign_world;
  acks = 4;
  received = 4;
  committed = 4;
  status = Status.running;
}

foreign_channel_stops_example :
    loop toy
      (step_of toy Kind.kafka 60 true (default_config, codes "u"))
      (answer ∷ answer ∷ [])
      foreign_run
    ≡ record foreign_run { received = 5; committed = 5; status = Status.returned }
foreign_channel_stops_example =
    foreign_channel_stops toy default_config (codes "u") answer foreign_run refl refl refl
      Kind.kafka 60 true (answer ∷ []) foreign

abbrev fresh_run : Run (List Entry)
fresh_run = record { world = idle; acks = 4; received = 4; committed = 4; status = Status.running }

absent_rmq : check_channel toy Kind.rmq [] default_config [] ≡ done true
unfolding check_channel
absent_rmq = refl

absent_kafka : check_channel toy Kind.kafka [] default_config [] ≡ done true
unfolding check_channel
absent_kafka = refl

x_utf8 : is_utf8 (codes "x") ≡ true
unfolding is_utf8
x_utf8 = refl

x_final : final_data toy default_config (codes "x") ≡ done (codes "x", [])
unfolding final_data
x_final = refl

x_undecodable : toy.decode_notif (codes "x") ≡ none
unfolding decode_notif get_notif
x_undecodable = refl

abbrev with_error : World (List Entry)
with_error = record_errors (new_error codec_error_code Site.decode_serde true ∷ []) idle

undecodable_message_example :
    (rmq_step toy 60 true (default_config, []) answer fresh_run ≡ record {
      world = with_error;
      acks = 5;
      received = 4;
      committed = 4;
      status = Status.running;
    })
    × (kafka_step toy 60 (default_config, []) answer fresh_run ≡ record {
      world = with_error;
      acks = 4;
      received = 5;
      committed = 5;
      status = Status.returned;
    })
undecodable_message_example =
    undecodable_message toy 60 true default_config [] answer fresh_run (codes "x") (codes "x") refl
      refl refl x_utf8 absent_rmq absent_kafka x_final x_undecodable refl

abbrev valid : Message
valid = record answer { body = some (encode_notif notif) }

abbrev kafka_run : Run (List Entry)
kafka_run = kafka_step toy 0 (default_config, []) valid fresh_run

kafka_commit_after_processing_example :
    (kafka_run.received ≡ 5)
    × (kafka_run.committed ≡ 5)
    × (((kafka_run.status ≡ Status.running)
          × (kafka_run.acks ≡ 5)
          × (check_channel toy Kind.kafka [] default_config [] ≡ done true)
          × (process_kafka toy 0 default_config valid.env (encode_notif notif) idle
              ≡ done (kafka_run.world, true)))
        ⊎ ((kafka_run.status ≢ Status.running) × (kafka_run.acks ≡ 4)))
kafka_commit_after_processing_example =
    kafka_commit_after_processing toy 0 default_config [] valid fresh_run (encode_notif notif) refl
      refl

-- The message is processed, and the consumer goes on.
one_more : (kafka_run.acks ≡ 5) × (kafka_run.status ≡ Status.running)
unfolding kafka_step checked check_channel kafka_round is_utf8 encode_notif put_notif process_kafka
    final_data decode_notif get_notif take_text handle_event cache_event
one_more = (refl, refl)
