-- ===== src/Examples/BrokerRuns.antt =====
-- The theorems on src/workers/notif/mod.rs at concrete inputs.
use hoopoe.Base.{
  Text, codes, List, [], ◌∷◌, ◌++◌, true, false, Option, none, some, ◌≡◌, ◌≢◌, refl, text_eq, pos,
  arith, is_utf8, done, is_some,
}
use hoopoe.Models.{ActionType, NotifData, CryptoConfig}
use hoopoe.Crypter.{encrypt}
use hoopoe.Broker.{World, seal_config, consumer_config, notif_owner_key}
use hoopoe.Broker.CacheLaws.{events_of}
use hoopoe.Broker.CacheMap.{events_of-cache_all, cache_all}
use hoopoe.Broker.Consume.{Run, Status, rmq_step}
use hoopoe.Broker.Publish.{PublishNotifToRmq, RmqAnswers, Published, handle_publish_rmq, seal_notif}
use hoopoe.Broker.RoundTrip.{rmq_delivers}
use hoopoe.Crypter.{decrypt}
use hoopoe.Crypter.Laws.{decrypt-encrypt_text}
use hoopoe.Errors.{HoopoeErrorResponse, Site}
use hoopoe.Models.{crypter_themis_error_code}
use hoopoe.Broker.PublishLaws.{failed_encryption_publishes_plain}
use hoopoe.Broker.Race.{
  Task, Tasks, advance, Reach, next, here, first, earlier_events_stay, update_can_be_lost,
}
use hoopoe.Examples.Toy.{toy, Entry}
use hoopoe.Examples.Wire.{encode_notif, put_notif, encode_events, decode_events}

abbrev pub notif : NotifData
notif = record {
  id = codes "n1";
  receiver_info = codes "7";
  action_data = codes "{}";
  actioner_info = codes "8";
  action_type = ActionType.event_created;
  fired_at = pos 100;
  is_seen = false;
}

abbrev pub second_notif : NotifData
second_notif = record notif { id = codes "n2" }

abbrev pub other_notif : NotifData
other_notif = record notif { receiver_info = codes "9" }

abbrev pub idle : World (List Entry)
idle = record { store = []; ws = []; mailbox = []; errors = [] }

abbrev pub keys : CryptoConfig
keys = record { secret = codes "s"; passphrase = codes "p"; unique_key = codes "u" }

abbrev pub sealed_msg : PublishNotifToRmq
sealed_msg = record {
  local_spawn = true;
  notif_data = notif;
  exchange_name = codes "hoops";
  exchange_type = codes "topic";
  routing_key = codes "r";
  encryption_config = some keys;
}

keys_seal : (encrypt toy (encode_notif notif) (seal_config toy keys)).2 ≡ []
unfolding encrypt encode_notif put_notif
keys_seal = refl

secret_ne : codes "s" ≢ []
secret_ne e = cc

passphrase_ne : codes "p" ≢ []
passphrase_ne e = cc

notif_utf8 : is_utf8 (encode_notif notif) ≡ true
unfolding is_utf8 encode_notif put_notif
notif_utf8 = refl

no_list : toy.get [] (notif_owner_key (codes "7")) ≡ none
no_list = refl

empty_list : (owner : Text) → events_of toy [] owner ≡ some []
unfolding events_of
empty_list owner = refl

abbrev everything_up : RmqAnswers
everything_up = record {
  redis_ok = true;
  pool = true;
  channel = true;
  exchange_declare = true;
  publish = true;
  confirm = true;
}

known_list : is_some (events_of toy [] (codes "7")) ≡ true
unfolding events_of
known_list = refl

abbrev sealed_text : Text
sealed_text = (seal_notif toy notif (some keys)).text

abbrev sent : World (List Entry) × Option Published
sent = handle_publish_rmq toy everything_up sealed_msg idle

abbrev consumed : Run (List Entry)
consumed =
    rmq_step toy 60 true (consumer_config toy (some keys))
      (record {
        body = some sealed_text;
        conn_ok = true;
        ack_ok = true;
        env = record { pool_ok = true; ws_open = true; mutator_up = true };
      })
      (record { world = sent.0; acks = 0; received = 0; committed = 0; status = Status.running })

rmq_delivers_example :
    (sent.1
      ≡ some (record { exchange = codes "hoops"; routing_key = codes "r"; payload = sealed_text }))
    × (consumed.status ≡ Status.running)
    × (consumed.acks ≡ 1)
    × (consumed.world.ws ≡ encode_notif notif ∷ [])
    × (consumed.world.mailbox ≡ notif ∷ [])
rmq_delivers_example =
    rmq_delivers toy sealed_msg idle 60 true 0 (secret_ne, passphrase_ne, keys_seal) notif_utf8
      known_list

events_of-cache_all_example :
    events_of toy
      (cache_all toy 60
        (omega arith)
        (omega arith)
        (notif ∷ other_notif ∷ second_notif ∷ [])
        idle).store
      (codes "7")
    ≡ some (notif ∷ second_notif ∷ [])
unfolding text_eq
events_of-cache_all_example =
    events_of-cache_all toy 60 (omega arith) (omega arith) (notif ∷ other_notif ∷ second_notif ∷ [])
      idle (codes "7") [] (empty_list (codes "7"))

-- A notification that is no text of bytes, which the example's cell does not seal.
abbrev unsealable : NotifData
unsealable = record notif { action_data = 256 ∷ [] }

not_sealed :
    toy.secure_cell_encrypt (record (seal_config toy keys) { payload = encode_notif unsealable })
    ≡ none
unfolding encode_notif put_notif seal_config
not_sealed = refl

abbrev unsealed : World (List Entry) × Option Published
unsealed = handle_publish_rmq toy everything_up (record sealed_msg { notif_data = unsealable }) idle

failed_encryption_publishes_plain_example :
    (unsealed.1
      ≡ some (record {
        exchange = codes "hoops";
        routing_key = codes "r";
        payload = encode_notif unsealable;
      }))
    × ((rest : List HoopoeErrorResponse) × (unsealed.0.errors
          ≡ record {
            code = crypter_themis_error_code;
            site = Site.secure_cell_encrypt;
            to_zerlog = false;
          }
            ∷ rest))
failed_encryption_publishes_plain_example =
    failed_encryption_publishes_plain toy (record sealed_msg { notif_data = unsealable }) keys
      everything_up idle refl not_sealed refl refl refl refl

abbrev one_stored : List Entry
one_stored =
    record { key = notif_owner_key (codes "7"); value = encode_events (notif ∷ []); expiry = none }
    ∷ []

one_known : events_of toy one_stored (codes "7") ≡ some (notif ∷ [])
unfolding events_of notif_owner_key text_eq decode_events
one_known = toy.decode-encode_events (notif ∷ [])

abbrev two_tasks : Tasks toy 60
two_tasks = record { store = one_stored; one = Task.reading notif; two = Task.reading second_notif }

abbrev after_a_step : Tasks toy 60
after_a_step = record two_tasks {
  store = (advance toy 60 one_stored (Task.reading notif)).0;
  one = (advance toy 60 one_stored (Task.reading notif)).1;
}

earlier_events_stay_example :
    (rest : List NotifData) × (events_of toy
        (advance toy 60 one_stored (Task.reading notif)).0
        (codes "7")
      ≡ some ((notif ∷ []) ++ rest))
earlier_events_stay_example =
    earlier_events_stay toy 60 (omega arith) (omega arith) (codes "7") (notif ∷ []) notif
      second_notif one_stored after_a_step one_known (next here first)

update_can_be_lost_example :
    (t : Tasks toy 60) × Reach toy 60 two_tasks t
    × (t.one ≡ Task.over)
    × (t.two ≡ Task.over)
    × (events_of toy t.store (codes "7") ≡ some (notif ∷ second_notif ∷ []))
update_can_be_lost_example =
    update_can_be_lost toy 60 (omega arith) (omega arith) (codes "7") notif second_notif one_stored
      (notif ∷ []) refl refl one_known

decrypt-encrypt_text_example :
    decrypt toy (encrypt toy (encode_notif notif) (seal_config toy keys)).0 (seal_config toy keys)
    ≡ done (encode_notif notif, record (seal_config toy keys) { payload = encode_notif notif }, [])
decrypt-encrypt_text_example =
    decrypt-encrypt_text toy (encode_notif notif) (seal_config toy keys) (seal_config toy keys) refl
      refl keys_seal notif_utf8
