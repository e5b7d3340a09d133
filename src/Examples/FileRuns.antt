-- ===== src/Examples/FileRuns.antt =====
-- The theorems on the files that src/apis/v1/http/health.rs, src/error/mod.rs and
-- src/crypter/src/cry.rs write, and on the storage and the health check, at concrete inputs.
use hoopoe.Base.{
  Text, codes, [], ◌∷◌, true, false, none, some, done, ◌≡◌, refl, pos, parse_usize, show_i64,
  is_utf8, text_eq, All,
}
use hoopoe.Models.{SecureCellConfig, storage_io_error_code}
use hoopoe.Errors.{HoopoeErrorResponse, Site, new_error}
use hoopoe.Crypter.{encrypt_bytes, decrypt_bytes}
use hoopoe.Files.{Files, write_file}
use hoopoe.Storage.Engine.{
  Vars, Storage, Mode, new_storage, redis_conn_url, rmq_addr, get_redis_pool, get_lapin_pool,
  get_seaorm_pool,
}
use hoopoe.Health.Check.{Pings, Progress, alive, failing, check_health}
use hoopoe.Health.Picture.{
  UserSecureCellConfig, Upload, destination, encrypted_path, picture_config, picer,
}
use hoopoe.Health.PictureLaws.{picer-decrypt}
use hoopoe.Errors.Log.{
  ErrorInstance, ErrorKind, LogEnv, log_path, log_all, wirte_async, log_content,
}
use hoopoe.Errors.LogLaws.{log_all_lem, logged, entries}
use hoopoe.Cry.Wannacry.{encrypt_file, decrypt_file, enc_file_path, config_path}
use hoopoe.Cry.WannacryLaws.{decrypt_file-encrypt_file, key_only}
use hoopoe.Cry.Wallet.{Wallet}
use hoopoe.Cry.Eddsa.{encrypt_and_sign, decrypt_and_verify}
use hoopoe.Cry.EddsaLaws.{decrypt_and_verify-sign}
use hoopoe.Zerlog.{ProduceNotif, zerlog_message, new_instance, handle_produce}
use hoopoe.Zerlog.Laws.{new_instance-reported}
use hoopoe.Broker.Publish.{fanout, RmqAnswers}
use hoopoe.Examples.Toy.{toy}
use hoopoe.Examples.More.{connections, wallets, zerlog_texts}

abbrev no_files : Files
no_files = λ path. none

abbrev one_file : Files
one_file = write_file (codes "a.txt") (codes "hello") no_files

-- A picture that is uploaded.
abbrev user : UserSecureCellConfig
user = record { secret_key = codes "k"; passphrase = codes "p" }

abbrev picture : Upload
picture = record { name = some (codes "cat.png"); content = 137 ∷ 80 ∷ [] }

sealed_cleanly : (picer toy (codes "img-1") true user (some picture) no_files).1 ≡ []
unfolding picer encrypt_bytes
sealed_cleanly = refl

abbrev kept : Files
kept = (picer toy (codes "img-1") true user (some picture) no_files).0

picer-decrypt_example :
    (bytes : Text) × (kept (encrypted_path (destination (codes "img-1") picture)) ≡ some bytes)
    × (kept (destination (codes "img-1") picture) ≡ none)
    × ((decrypt_bytes toy [] (picture_config user bytes)).1.payload ≡ 137 ∷ 80 ∷ [])
picer-decrypt_example = picer-decrypt toy (codes "img-1") user picture no_files sealed_cleanly

-- A file that is encrypted.
decrypt_file-encrypt_file_example :
    (fs' : Files) × (read : SecureCellConfig) × (encrypt_file toy wallets
        (codes "a.txt")
        (40 ∷ 50 ∷ [])
        one_file
      ≡ done (
        fs',
        codes "hello",
        record (key_only toy wallets (40 ∷ 50 ∷ [])) { payload = codes "hello" },
      ))
    × (fs' (enc_file_path toy wallets (codes "a.txt")) ≡ some (codes "hello"))
    × (fs' (config_path toy wallets (codes "a.txt")) ≡ some (toy.encode_config read))
    × (toy.decode_config (toy.encode_config read) ≡ some read)
    × (decrypt_file toy wallets (codes "b.txt") (record read { payload = codes "hello" }) fs'
        ≡ done (write_file (codes "b.txt") (codes "hello") fs', codes "hello"))
unfolding text_eq
decrypt_file-encrypt_file_example =
    decrypt_file-encrypt_file toy wallets (codes "a.txt") (codes "b.txt") (codes "hello")
      (codes "hello") (40 ∷ 50 ∷ []) one_file refl refl

-- A packet that is signed.
abbrev packet : SecureCellConfig
packet = record { secret_key = codes "k"; passphrase = []; payload = codes "pay 5" }

packet_utf8 : is_utf8 packet.payload ≡ true
unfolding is_utf8
packet_utf8 = refl

abbrev pair : Wallet
pair = record { ed25519_secret_key = some (codes "w"); ed25519_public_key = some (codes "w") }

decrypt_and_verify-sign_example :
    (encrypt_and_sign toy wallets pair packet []
      ≡ done (packet, (codes "ed25519-secure_cell" ∷ [], codes "w")))
    × (decrypt_and_verify toy wallets pair (codes "w") packet []
        ≡ done (codes "ed25519-secure_cell" ∷ [], true, codes "pay 5"))
decrypt_and_verify-sign_example =
    decrypt_and_verify-sign toy wallets (codes "w") (codes "w") (codes "w") packet packet [] [] refl
      packet_utf8 refl

-- A storage that is connected.
abbrev vars : Vars
vars = record {
  database_url = codes "d";
  db_engine = codes "postgres";
  redis_host = codes "r";
  redis_port = codes "6379";
  redis_username = [];
  redis_password = [];
  amqp_host = codes "q";
  amqp_port = codes "5672";
  amqp_username = codes "u";
  amqp_password = codes "p";
}

abbrev storage : Storage connections
storage = record {
  id = codes "1";
  bucket = some (record {
    mode = Mode.on;
    redis_async_pubsub_conn = some (codes "r");
    locker = some (codes "redis://r:6379");
    seaorm_pool = some (codes "d");
    lapin_pool = some (codes "amqp://u:p@q:5672");
    redis_pool = some (codes "redis://r:6379");
  });
}

connected : new_storage connections vars (codes "1") ≡ done (some storage)
unfolding new_storage text_eq parse_usize redis_conn_url rmq_addr show_i64
connected = refl

-- A health check while Redis is down.
abbrev redis_down : Pings
redis_down = record { db = none; redis = some (record { source = some (codes "x") }); rmq = none }

abbrev health_answer : Progress
health_answer = record {
  status_code = some 200;
  rendered =
      record { status = 500; is_err = true; body = failing (codes "Redis: x") }
      ∷ record { status = 200; is_err = false; body = alive }
      ∷ [];
  errors = new_error storage_io_error_code Site.check_redis_pool true ∷ [];
}

checked_health : check_health connections storage redis_down ≡ done health_answer
unfolding check_health get_redis_pool get_lapin_pool get_seaorm_pool
checked_health = refl

-- Two errors that are logged.
abbrev error_here : ErrorInstance
error_here = record { code = 7; msg = codes "m"; kind = ErrorKind.storage; method_name = codes "f" }

abbrev calm : LogEnv
calm = record {
  folder_ok = true;
  metadata_ok = true;
  now = pos 1;
  local_time = codes "t";
  metadata_error = codes "e";
  other_ok = true;
}

log_all_example :
    logged (log_all ((calm, error_here) ∷ (calm, error_here) ∷ []) no_files)
    ≡ entries ((calm, error_here) ∷ (calm, error_here) ∷ [])
log_all_example =
    log_all_lem ((calm, error_here) ∷ (calm, error_here) ∷ []) no_files (refl, (refl, tt))

-- An error that is reported while everything answers.
abbrev all_answer : RmqAnswers
all_answer = record {
  redis_ok = true;
  pool = true;
  channel = true;
  exchange_declare = true;
  publish = true;
  confirm = true;
}

abbrev first_log : Files
first_log = write_file log_path (log_content error_here (codes "m") (pos 1)) no_files

first_written : wirte_async calm error_here no_files ≡ done first_log
unfolding wirte_async is_utf8
first_written = refl

abbrev reported : ProduceNotif
reported = zerlog_message zerlog_texts error_here (codes "id") (pos 1)

new_instance-reported_example :
    (new_instance zerlog_texts calm true true
        (codes "id")
        (pos 1)
        error_here
        (record { files = no_files; outbox = [] })
      ≡ done (record { files = first_log; outbox = reported ∷ [] }))
    × ((handle_produce zerlog_texts all_answer reported).1
        ≡ some (
          fanout,
          record {
            exchange = codes "Hoopoe:ZerlogExchange";
            routing_key = [];
            payload = reported.notif_data.action_data;
          },
        ))
    × All
        (λ (own : HoopoeErrorResponse). own.to_zerlog ≡ false)
        (handle_produce zerlog_texts all_answer reported).0
new_instance-reported_example =
    new_instance-reported zerlog_texts all_answer calm (codes "id") (pos 1) error_here
      (record { files = no_files; outbox = [] }) first_log first_written
