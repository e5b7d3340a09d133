-- ===== src/Storage/EngineLaws.antt =====
-- Which pools the storage of src/storage/engine.rs hands out.
use hoopoe.Base.{
  ℕ, Text, codes, Bool, true, false, Option, none, some, Outcome, done, ◌≡◌, arith, text_eq, inl,
  inr, Bool-cases, Option-cases,
}
use hoopoe.Storage.Engine.{
  Connections, Vars, redis_conn_url, rmq_addr, Storage, new_storage, build_storage, parse_u16,
  get_seaorm_pool, get_lapin_pool, get_redis_pool, get_async_redis_pubsub_conn, get_locker_manager,
}

-- The address of Redis never names the user.
pub redis_username_unused :
    (v : Vars) (user : Text) (port : ℕ)
    → redis_conn_url (record v { redis_username = user }) port ≡ redis_conn_url v port
unfolding redis_conn_url
redis_username_unused v user port = ground arith

module _ (C : Connections) where
  -- Whether a getter hands out something.
  abbrev Gives : {A : Type 0} → Outcome (Option A) → Bool → Type 0
  Gives {A} o true = (pool : A) × (o ≡ done (some pool))
  Gives o false = o ≡ done none

  -- All five getters.
  abbrev pub GiveAll : Storage C → Bool → Type 0
  GiveAll st b =
      Gives (get_seaorm_pool C st) b
      × Gives (get_lapin_pool C st) b
      × Gives (get_redis_pool C st) b
      × Gives (get_async_redis_pubsub_conn C st) b
      × Gives (get_locker_manager C st) b

  build_storage-pools :
      (v : Vars) (id : Text) (port : ℕ) (pubsub : Option C.PubsubConnection)
      (db : Option C.DatabaseConnection) (lapin : Option C.LapinPool) (pool : Option C.RedisPool)
      (st : Storage C)
      → build_storage C v id port pubsub db lapin pool ≡ done (some st)
      → GiveAll st (text_eq v.db_engine (codes "postgres"))
  unfolding build_storage get_seaorm_pool get_lapin_pool get_redis_pool get_async_redis_pubsub_conn
      get_locker_manager
  build_storage-pools v id port none db lapin pool st e = absurd (ground (arith, e))
  build_storage-pools v id port (some pubsub) none lapin pool st e = absurd (ground (arith, e))
  build_storage-pools v id port (some pubsub) (some db) none pool st e = absurd (ground (arith, e))
  build_storage-pools v id port (some pubsub) (some db) (some lapin) none st e =
      absurd (ground (arith, e))
  build_storage-pools v id port (some pubsub) (some db) (some lapin) (some pool) st e =
      elim (Bool-cases (text_eq v.db_engine (codes "postgres"))) [
        | inl t ↦ rw t (
          (db, ground (arith, e, t)),
          (lapin, ground (arith, e, t)),
          (pool, ground (arith, e, t)),
          (pubsub, ground (arith, e, t)),
          (C.new_redlock (redis_conn_url v port), ground (arith, e, t)),
        )
        | inr t ↦ rw t (ground (arith, e, t))
      ]

  -- A storage that could connect to everything hands out every pool and connection if the engine is
  -- named postgres, and none of them otherwise, Redis and RabbitMQ included.
  pub new_storage-pools :
      (v : Vars) (id : Text) (st : Storage C)
      → new_storage C v id ≡ done (some st)
      → GiveAll st (text_eq v.db_engine (codes "postgres"))
  unfolding new_storage
  new_storage-pools v id st e = elim (Option-cases (parse_u16 v.redis_port)) [
    | inl missing ↦ absurd (ground (arith, e, missing))
    | inr (port, found) ↦
        build_storage-pools v id port (C.pubsub_connect v.redis_host port v.redis_password)
          (C.database_connect v.database_url) (C.create_lapin_pool (rmq_addr v))
          (C.create_redis_pool (redis_conn_url v port)) st (rw found at e)
  ]
