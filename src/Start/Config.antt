-- ===== src/Start/Config.antt =====
-- src/config/mod.rs: the variables that `get_vars` reads, and src/cli/mod.rs: the command line.
use hoopoe.Base.{
  Text, codes, List, [], ◌∷◌, Bool, Option, none, some, Outcome, done, panic, ◌>>=◌, unwrap,
  text_eq, if◌then◌else◌,
}

-- The fields of `Env`, in the order in which they are read.
abbrev pub var_names : List Text
var_names =
    codes "REDIS_HOST"
    ∷ codes "REDIS_PORT"
    ∷ codes "REDIS_USERNAME"
    ∷ codes "REDIS_PASSWORD"
    ∷ codes "REDIS_SESSION_EXP_KEY"
    ∷ codes "IO_BUFFER_SIZE"
    ∷ codes "FILE_SIZE"
    ∷ codes "HOST"
    ∷ codes "AMQP_PORT"
    ∷ codes "AMQP_HOST"
    ∷ codes "AMQP_USERNAME"
    ∷ codes "AMQP_PASSWORD"
    ∷ codes "KAFKA_PORT"
    ∷ codes "KAFKA_HOST"
    ∷ codes "KAFKA_USERNAME"
    ∷ codes "KAFKA_PASSWORD"
    ∷ codes "TCP_PORT"
    ∷ codes "GRPC_PORT"
    ∷ codes "HTTP_PORT"
    ∷ codes "SECRET_KEY"
    ∷ codes "ENVIRONMENT"
    ∷ codes "DB_MIGRATION_ENV"
    ∷ codes "MACHINE_ID"
    ∷ codes "NODE_ID"
    ∷ codes "POSTGRES_HOST"
    ∷ codes "POSTGRES_PORT"
    ∷ codes "POSTGRES_USER"
    ∷ codes "POSTGRES_PASSWORD"
    ∷ codes "DB_ENGINE"
    ∷ codes "DB_NAME"
    ∷ codes "DATABASE_URL"
    ∷ codes "GEM_BASE_URL"
    ∷ []

-- What the process finds: whether the file `.env` is there, and its environment with that file.
pub record Environment : Type 0 where
  pub has_file : Bool
  pub var : Text → Option Text

-- A value of `Env`: its fields with their values.
abbrev pub Env : Type 0
Env = List (Text × Text)

-- `std::env::var(name).expect(…)` for one field after the other.
unfoldable pub read_vars : (Text → Option Text) → List Text → Outcome Env
read_vars var [] = done []
read_vars var (name ∷ names) = do
  value ← unwrap (var name)
  rest ← read_vars var names
  done ((name, value) ∷ rest)

unfoldable pub get_vars : Environment → Outcome Env
unfolding read_vars
get_vars e = if e.has_file then read_vars e.var var_names else panic

-- `env.NAME`.
unfoldable pub field : Text → Env → Option Text
field name [] = none
field name ((other, value) ∷ env) = if text_eq other name then some value else field name env

pub record ServerKind : Type 0 where
  pub server : Text
  pub fresh : Bool
