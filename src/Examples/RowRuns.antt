-- ===== src/Examples/RowRuns.antt =====
-- The theorems on the rows of src/workers/cqrs, and on Kafka and Redis, at concrete inputs.
use hoopoe.Base.{
  ℕ, ℤ, Text, codes, List, [], ◌∷◌, true, Option, none, some, ◌≡◌, ◌≢◌, refl, pos, ltb_ℤ, arith,
  is_utf8, is_some, done, Bool, text_eq,
}
use hoopoe.Crypter.{encrypt}
use hoopoe.Broker.{World, consumer_config, seal_config}
use hoopoe.Broker.CacheLaws.{events_of}
use hoopoe.Broker.Consume.{Run, Status, kafka_step, redis_step}
use hoopoe.Broker.Publish.{seal_notif, publish_to_kafka, publish_to_redis, KafkaRecord}
use hoopoe.Broker.RoundTrip.{delivered}
use hoopoe.Broker.Streams.{streams_deliver, Arrived}
use hoopoe.Cqrs.Table.{NotifRow, find_by_id}
use hoopoe.Models.{NotifData}
use hoopoe.Cqrs.Store.{DbAnswers, Notifs, row_of, handle_store_event, StoreTasks, spawned, ended}
use hoopoe.Cqrs.StoreLaws.{store_all_lem, asked_row}
use mathlib.Core.List.{Perm}
use hoopoe.Cqrs.Seen.{handle_seen, handle_by_id}
use hoopoe.Cqrs.SeenLaws.{handle_seen-stored}
use hoopoe.Hoop.Mutator.{
  HoopEventFormForDb, HoopModel, DbHoopData, Hoops, Answered, raw_finish_hoop, hoop_by_title,
  mark_finished,
}
use hoopoe.Hoop.MutatorLaws.{raw_finish_hoop_lem}
use hoopoe.Examples.Toy.{toy, Entry}
use hoopoe.Examples.Wire.{encode_notif, put_notif}
use hoopoe.Examples.BrokerRuns.{notif, second_notif, idle, keys}

abbrev empty : Notifs
empty = record { rows = []; errors = [] }

abbrev taken_as : ℤ → DbAnswers
taken_as id = record { json_ok = true; saved = some id; model_ok = true }

abbrev in_500 : ℤ → Bool
in_500 t = ltb_ℤ t (pos 500)

abbrev first_task : NotifData × DbAnswers
first_task = (notif, taken_as (pos 2))

abbrev second_task : NotifData × DbAnswers
second_task = (record notif { fired_at = pos 900 }, taken_as (pos 3))

abbrev third_task : NotifData × DbAnswers
third_task = (second_notif, taken_as (pos 1))

abbrev tasks : List (NotifData × DbAnswers)
tasks = first_task ∷ second_task ∷ third_task ∷ []

abbrev all_stored : Notifs
all_stored = handle_store_event in_500 first_task.1 first_task.0 (
    handle_store_event in_500 second_task.1 second_task.0
      (handle_store_event in_500 third_task.1 third_task.0 empty))

-- The third task ends first, and the time of the second is no date.
all_over : StoreTasks in_500 tasks empty [] all_stored (third_task ∷ second_task ∷ first_task ∷ [])
all_over = ended [] [] notif (taken_as (pos 2)) (
    ended (first_task ∷ []) [] second_task.0 second_task.1
      (ended (first_task ∷ second_task ∷ []) [] second_notif (taken_as (pos 1)) spawned))

store_all_example :
    Perm (third_task ∷ second_task ∷ first_task ∷ []) tasks
    × (all_stored.rows ≡ asked_row (pos 1) second_notif ∷ asked_row (pos 2) notif ∷ [])
store_all_example = store_all_lem all_over

abbrev one_row : Notifs
one_row = record { rows = row_of (pos 1) notif ∷ []; errors = [] }

no_second : find_by_id (pos 2) one_row.rows ≡ none
unfolding find_by_id row_of
no_second = refl

abbrev stored_and_seen : Notifs × Option (Option NotifRow)
stored_and_seen =
    handle_seen (record { query_ok = true; update_ok = true }) (pos 2)
      (handle_store_event (λ t. true) (taken_as (pos 2)) second_notif one_row)

abbrev seen_row : NotifRow
seen_row = record (row_of (pos 2) second_notif) { is_seen = true }

handle_seen-stored_example :
    (stored_and_seen.1 ≡ some (some seen_row))
    × ((handle_by_id true (pos 2) stored_and_seen.0).1 ≡ some (some seen_row))
    × (find_by_id (pos 1) stored_and_seen.0.rows ≡ find_by_id (pos 1) one_row.rows)
handle_seen-stored_example =
    handle_seen-stored (λ t. true) second_notif (pos 2) (pos 1) one_row refl no_second refl

secret_ne : codes "s" ≢ []
secret_ne e = cc

passphrase_ne : codes "p" ≢ []
passphrase_ne e = cc

keys_seal : (encrypt toy (encode_notif notif) (seal_config toy keys)).2 ≡ []
unfolding encrypt encode_notif put_notif
keys_seal = refl

notif_utf8 : is_utf8 (encode_notif notif) ≡ true
unfolding is_utf8 encode_notif put_notif
notif_utf8 = refl

known_list : is_some (events_of toy [] (codes "7")) ≡ true
unfolding events_of
known_list = refl

abbrev to_kafka : World (List Entry) × Option KafkaRecord
to_kafka =
    publish_to_kafka toy
      (record { redis_ok = true; config_ok = true; create = true; delivery = true }) (codes "t")
      ((codes "h", codes "v") ∷ []) notif (some keys) idle

abbrev to_redis : World (List Entry) × Option (Text × Option ℕ)
to_redis =
    publish_to_redis toy (record { redis_ok = true; config_ok = true; subs = 2 ∷ [] }) notif
      (some keys) idle

abbrev sealed_text : Text
sealed_text = (seal_notif toy notif (some keys)).text

abbrev from : World (List Entry) → Run (List Entry)
from w = record { world = w; acks = 0; received = 0; committed = 0; status = Status.running }

streams_deliver_example :
    (to_kafka.1
      ≡ some (record { topic = codes "t"; key = codes "7"; payload = sealed_text; headers = [] }))
    × (to_redis.1 ≡ some (sealed_text, some 1))
    × Arrived toy notif
        (some keys)
        idle
        60
        0
        (secret_ne, passphrase_ne, keys_seal)
        notif_utf8
        known_list
        1
        (kafka_step toy 60
          (consumer_config toy (some keys))
          (delivered sealed_text)
          (from to_kafka.0))
    × Arrived toy notif
        (some keys)
        idle
        60
        0
        (secret_ne, passphrase_ne, keys_seal)
        notif_utf8
        known_list
        0
        (redis_step toy 60
          (consumer_config toy (some keys))
          (delivered sealed_text)
          (from to_redis.0))
streams_deliver_example =
    streams_deliver toy notif (some keys) idle 60 0 (secret_ne, passphrase_ne, keys_seal) notif_utf8
      known_list (codes "t") ((codes "h", codes "v") ∷ []) 2 [] (omega arith) tt tt

abbrev hoop_form : Text → HoopEventFormForDb
hoop_form title = record {
  etype = codes "proposal";
  manager = pos 7;
  entrance_fee = pos 0;
  title = title;
  description = codes "a talk";
  started_at = pos 100;
  end_at = pos 200;
  duration = pos 100;
  capacity = pos 3;
  cover = [];
}

abbrev hoop_row : ℤ → Text → Bool → HoopModel
hoop_row id title is_finished = record {
  id = id;
  form = hoop_form title;
  is_finished = is_finished;
}

abbrev three_hoops : Hoops
three_hoops = record {
  rows =
      hoop_row (pos 1) (codes "stream") Bool.false
      ∷ hoop_row (pos 2) (codes "talk") Bool.false
      ∷ hoop_row (pos 3) (codes "talk") Bool.false
      ∷ [];
  errors = [];
}

abbrev talks_finished : Answered DbHoopData
talks_finished = (
  record {
    rows =
        hoop_row (pos 1) (codes "stream") Bool.false
        ∷ hoop_row (pos 2) (codes "talk") true
        ∷ hoop_row (pos 3) (codes "talk") true
        ∷ [];
    errors = [];
  },
  done (some (record { id = pos 2; form = hoop_form (codes "talk") })),
)

abbrev read_all : HoopModel → Option DbHoopData
read_all row = some (record { id = row.id; form = row.form })

raw_finish_hoop_example :
    raw_finish_hoop read_all true true (codes "talk") three_hoops ≡ talks_finished
unfolding hoop_by_title text_eq mark_finished
raw_finish_hoop_example = raw_finish_hoop_lem read_all (codes "talk") three_hoops
