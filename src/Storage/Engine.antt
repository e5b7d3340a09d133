-- ===== src/Storage/Engine.antt =====
-- src/storage/engine.rs: the storage with its pools, which all handlers and actors ask for theirs.
use hoopoe.Base.{
  ℕ, ◌^◌, Text, codes, ◌++◌, not, ◌&&◌, Option, none, some, Outcome, done, ◌>>=◌, unwrap,
  if◌then◌else◌, ltb, is_empty, text_eq, parse_usize, show_i64, pos,
}

-- The connections, as the crates give them: `none` is a failure that the code unwraps. The ORM takes
-- the address as `DATABASE_URL` has it.
pub record Connections : Type 1 where
  pub PubsubConnection : Type 0
  pub DistLock : Type 0
  pub DatabaseConnection : Type 0
  pub LapinPool : Type 0
  pub RedisPool : Type 0
  pub pubsub_connect : Text → ℕ → Text → Option PubsubConnection
  pub new_redlock : Text → DistLock
  pub database_connect : Text → Option DatabaseConnection
  pub create_lapin_pool : Text → Option LapinPool
  pub create_redis_pool : Text → Option RedisPool

-- src/config/mod.rs, the variables that `Storage::new` reads for its connections.
pub record Vars : Type 0 where
  pub database_url : Text
  pub db_engine : Text
  pub redis_host : Text
  pub redis_port : Text
  pub redis_username : Text
  pub redis_password : Text
  pub amqp_host : Text
  pub amqp_port : Text
  pub amqp_username : Text
  pub amqp_password : Text

pub data Mode : Type 0 where
  on off : Mode

-- `parse::<u16>()`.
unfoldable pub parse_u16 : Text → Option ℕ
parse_u16 t = elim (parse_usize t) [
  | none ↦ none
  | some n ↦ if ltb n (2 ^ 16) then some n else none
]

unfoldable pub redis_conn_url : Vars → ℕ → Text
redis_conn_url v port =
    let address = v.redis_host ++ (codes ":" ++ show_i64 (pos port)) in
    if not (is_empty v.redis_password)
    then codes "redis://:" ++ (v.redis_password ++ (codes "@" ++ address))
    else if not (is_empty v.redis_password) && not (is_empty v.redis_username)
    then codes "redis://"
      ++ (v.redis_username ++ (codes ":" ++ (v.redis_password ++ (codes "@" ++ address))))
    else codes "redis://" ++ address

unfoldable pub rmq_addr : Vars → Text
rmq_addr v =
    codes "amqp://"
    ++ (v.amqp_username
        ++ (codes ":"
            ++ (v.amqp_password ++ (codes "@" ++ (v.amqp_host ++ (codes ":" ++ v.amqp_port))))))

module _ (C : Connections) where
  open C use {PubsubConnection, DistLock, DatabaseConnection, LapinPool, RedisPool}

  pub record Bucket : Type 0 where
    pub mode : Mode
    pub redis_async_pubsub_conn : Option PubsubConnection
    pub locker : Option DistLock
    pub seaorm_pool : Option DatabaseConnection
    pub lapin_pool : Option LapinPool
    pub redis_pool : Option RedisPool

  pub record Storage : Type 0 where
    pub id : Text
    pub bucket : Option Bucket

  abbrev pub empty_bucket : Bucket
  empty_bucket = record {
    mode = off;
    redis_async_pubsub_conn = none;
    locker = none;
    seaorm_pool = none;
    lapin_pool = none;
    redis_pool = none;
  }

  -- A failed connection is unwrapped.
  unfoldable pub build_storage :
      Vars
      → Text
      → ℕ
      → Option PubsubConnection
      → Option DatabaseConnection
      → Option LapinPool
      → Option RedisPool
      → Outcome (Option Storage)
  build_storage v id port pubsub? db? lapin? pool? = do
    pubsub ← unwrap pubsub?
    db ← unwrap db?
    lapin ← unwrap lapin?
    pool ← unwrap pool?
    let full = record empty_bucket {
      mode = on;
      redis_async_pubsub_conn = some pubsub;
      locker = some (C.new_redlock (redis_conn_url v port));
      seaorm_pool = some db;
      lapin_pool = some lapin;
      redis_pool = some pool;
    }
    let bucket = if text_eq v.db_engine (codes "postgres") then full else empty_bucket
    done (some (record { id = id; bucket = some bucket }))

  -- `Storage::new`, with the uuid that it draws.
  unfoldable pub new_storage : Vars → Text → Outcome (Option Storage)
  unfolding parse_u16 build_storage
  new_storage v id = do
    port ← unwrap (parse_u16 v.redis_port)
    build_storage v id port (C.pubsub_connect v.redis_host port v.redis_password)
        (C.database_connect v.database_url) (C.create_lapin_pool (rmq_addr v))
        (C.create_redis_pool (redis_conn_url v port))

  by_mode : {A : Type 0} → Mode → Outcome (Option A) → Outcome (Option A)
  by_mode on pool = pool
  by_mode off pool = done none

  unfoldable pub get_seaorm_pool : Storage → Outcome (Option DatabaseConnection)
  unfolding by_mode
  get_seaorm_pool st =
      unwrap st.bucket >>= λ b. by_mode b.mode (unwrap b.seaorm_pool >>= λ pool. done (some pool))

  unfoldable pub get_lapin_pool : Storage → Outcome (Option LapinPool)
  unfolding by_mode
  get_lapin_pool st = unwrap st.bucket >>= λ b. by_mode b.mode (done b.lapin_pool)

  unfoldable pub get_redis_pool : Storage → Outcome (Option RedisPool)
  unfolding by_mode
  get_redis_pool st = unwrap st.bucket >>= λ b. by_mode b.mode (done b.redis_pool)

  unfoldable pub get_async_redis_pubsub_conn : Storage → Outcome (Option PubsubConnection)
  unfolding by_mode
  get_async_redis_pubsub_conn st =
      unwrap st.bucket >>= λ b. by_mode b.mode (done b.redis_async_pubsub_conn)

  unfoldable pub get_locker_manager : Storage → Outcome (Option DistLock)
  unfolding by_mode
  get_locker_manager st = unwrap st.bucket >>= λ b. by_mode b.mode (done b.locker)
