-- ===== src/Start/Server.antt =====
-- src/server/mod.rs, `HoopoeServer`, with `AppContext::init` of src/context/mod.rs and `main` of
-- src/app.rs. The logger is installed once and only then; the actors start with their mailboxes.
use hoopoe.Base.{
  ℕ, Text, codes, [], ◌++◌, Bool, not, Option, none, some, Outcome, done, panic, ◌>>=◌, unwrap,
  if◌then◌else◌, is_empty,
}
use hoopoe.Storage.Engine.{Connections, Vars, Storage, new_storage}
use hoopoe.Start.Config.{Environment, Env, ServerKind, get_vars, field}
use hoopoe.Start.Routes.{Router, build_router}

abbrev pub or_else : Text → Option Text → Text
or_else default none = default
or_else default (some value) = value

-- A field of the struct `Env`.
abbrev pub field_of : Text → Env → Text
field_of name env = or_else [] (field name env)

unfoldable pub vars_of : Env → Vars
vars_of env = record {
  database_url = field_of (codes "DATABASE_URL") env;
  db_engine = field_of (codes "DB_ENGINE") env;
  redis_host = field_of (codes "REDIS_HOST") env;
  redis_port = field_of (codes "REDIS_PORT") env;
  redis_username = field_of (codes "REDIS_USERNAME") env;
  redis_password = field_of (codes "REDIS_PASSWORD") env;
  amqp_host = field_of (codes "AMQP_HOST") env;
  amqp_port = field_of (codes "AMQP_PORT") env;
  amqp_username = field_of (codes "AMQP_USERNAME") env;
  amqp_password = field_of (codes "AMQP_PASSWORD") env;
}

-- Where the server listens: at its address, or at port 443 with a certificate for a domain that is
-- asked for over HTTP.
pub data Acceptor : Type 0 where
  tcp : Text → Acceptor
  acme : (addr : Text) → (domain : Text) → Acceptor

-- What clap makes of the command line: the arguments, or the end of the process with a status, after
-- bad arguments, `--help` and `--version`.
pub data Parsed : Type 0 where
  arguments : ServerKind → Parsed
  exits : ℕ → Parsed

-- A run that goes on, or has ended the process with a status.
pub data Ran (A : Type 0) : Type 0 where
  still : A → Ran A
  exited : ℕ → Ran A

-- What the machine answers: the environment, the command line, whether the database at an address
-- can be connected to when the migrations ask, whether an address can be bound, and the uuid that
-- the storage draws.
pub record Machine : Type 0 where
  pub environment : Environment
  pub parse : Parsed
  pub connects : Text → Bool
  pub can_bind : Acceptor → Bool
  pub id : Text

module _ (C : Connections) where
  pub record AppContext : Type 0 where
    pub config : Env
    pub app_storage : Option (Storage C)

  -- A service is a router with the context that it injects.
  pub record Service : Type 0 where
    pub router : Router
    pub injected : Option AppContext

  pub record HoopoeServer : Type 0 where
    pub service : Option Service
    pub addr : Text
    pub app_ctx : Option AppContext
    pub ssl_domain : Option Text

  unfoldable pub new_server : Environment → Option Text → Outcome HoopoeServer
  new_server e ssl_domain =
      if e.has_file
      then done (record {
        service = none;
        addr =
            or_else (codes "0.0.0.0") (e.var (codes "HOST"))
            ++ (codes ":" ++ or_else (codes "2344") (e.var (codes "HTTP_PORT")));
        app_ctx = none;
        ssl_domain = ssl_domain;
      })
      else panic

  -- `Storage::new` reads the variables itself.
  unfoldable pub init : Machine → Outcome AppContext
  unfolding vars_of
  init m = do
    vars ← get_vars m.environment
    storage ← new_storage C (vars_of vars) m.id
    config ← get_vars m.environment
    done (record { config = config; app_storage = storage })

  unfoldable pub build_app_context : Machine → HoopoeServer → Outcome HoopoeServer
  build_app_context m s = init m >>= λ ctx. done (record s { app_ctx = some ctx })

  unfoldable pub build_service : HoopoeServer → HoopoeServer
  build_service s = record s {
    service = some (record { router = build_router; injected = s.app_ctx });
  }

  -- The command line is parsed and the connection is opened; the calls of the migrator are commented
  -- out, so that the argument `fresh` is not looked at.
  unfoldable pub apply_migrations : Machine → HoopoeServer → Outcome (Ran HoopoeServer)
  apply_migrations m s = unwrap s.app_ctx >>= λ ctx. elim m.parse [
    | exits status ↦ done (exited status)
    | arguments args ↦
        if m.connects (field_of (codes "DATABASE_URL") ctx.config) then done (still s) else panic
  ]

  bind : Machine → Acceptor → Outcome Acceptor
  bind m acceptor = if m.can_bind acceptor then done acceptor else panic

  over_tcp : Machine → HoopoeServer → Outcome (Acceptor × Service)
  unfolding bind
  over_tcp m s = do acceptor ← bind m (tcp s.addr); serv ← unwrap s.service; done (acceptor, serv)

  over_acme : Machine → Text → HoopoeServer → Outcome (Acceptor × Service)
  unfolding bind
  over_acme m domain s = do
    serv ← unwrap s.service
    acceptor ← bind m (acme s.addr domain)
    done (acceptor, serv)

  -- What is served, and where, for ever after.
  unfoldable pub run : Machine → HoopoeServer → Outcome (Acceptor × Service)
  unfolding over_tcp over_acme
  run m s = elim s.ssl_domain [
    | none ↦ over_tcp m s
    | some domain ↦ if not (is_empty domain) then over_acme m domain s else over_tcp m s
  ]

  -- The end of the process ends `main`.
  unfoldable pub run_on : Machine → Ran HoopoeServer → Outcome (Ran (Acceptor × Service))
  unfolding run
  run_on m (exited status) = done (exited status)
  run_on m (still s) = run m s >>= λ served. done (still served)

  unfoldable pub main : Machine → Outcome (Ran (Acceptor × Service))
  unfolding new_server build_app_context build_service apply_migrations run_on
  main m = do
    s ← new_server m.environment none
    s' ← build_app_context m s
    ran ← apply_migrations m (build_service s')
    run_on m ran
