-- ===== src/Health/Check.antt =====
-- src/apis/v1/http/health.rs, `check_health`. A `render` appends to the body, and the last status that
-- is set is the one that is sent.
use hoopoe.Base.{
  ℕ, Text, codes, List, [], ◌∷◌, ◌++◌, Bool, true, false, Option, none, some, Outcome, done, ◌>>=◌,
  unwrap,
}
use hoopoe.Models.{storage_io_error_code, ok_status, internal_server_error_status}
use hoopoe.Errors
use hoopoe.Errors.{Site, HoopoeErrorResponse, new_error}
use hoopoe.Storage.Engine.{Connections, Storage, get_seaorm_pool, get_lapin_pool, get_redis_pool}

-- An error of a service, with the text of its source if it has one.
pub record Failure : Type 0 where
  pub source : Option Text

-- How the database answers the ping, and Redis and RabbitMQ the call for a connection.
pub record Pings : Type 0 where
  pub db : Option Failure
  pub redis : Option Failure
  pub rmq : Option Failure

pub data Body : Type 0 where
  failing : Text → Body
  alive : Body

pub record Rendered : Type 0 where
  pub status : ℕ
  pub is_err : Bool
  pub body : Body

-- The response under way, and the errors that were recorded.
pub record Progress : Type 0 where
  pub status_code : Option ℕ
  pub rendered : List Rendered
  pub errors : List HoopoeErrorResponse

unfoldable pub render : ℕ → Bool → Body → Progress → Progress
render status is_err body p = record p {
  status_code = some status;
  rendered = p.rendered ++ record { status = status; is_err = is_err; body = body } ∷ [];
}

-- One service: a failure without a source panics, and nothing returns.
unfoldable pub report : Text → Site → Option Failure → Progress → Outcome Progress
unfolding render new_error
report prefix site none p = done p
report prefix site (some failure) p = do
  source ← unwrap failure.source
  done (
      render internal_server_error_status true (failing (prefix ++ source))
        (record p { errors = p.errors ++ new_error storage_io_error_code site true ∷ [] }))

abbrev pub nothing_rendered : Progress
nothing_rendered = record { status_code = none; rendered = []; errors = [] }

-- The services one after the other, and the answer that the server is alive.
unfoldable pub report_all : Pings → Outcome Progress
unfolding report render
report_all pings =
    report (codes "SeaOrm: ") Errors.Site.check_db_ping pings.db nothing_rendered >>= λ p.
    report (codes "Redis: ") Errors.Site.check_redis_pool pings.redis p >>= λ q.
    report (codes "Rmq: ") Errors.Site.check_rmq_pool pings.rmq q >>= λ r.
    done (render ok_status false alive r)

module _ (C : Connections) where
  -- The pools are unwrapped.
  unfoldable pub pools_of : Storage C → Outcome (C.DatabaseConnection × C.LapinPool × C.RedisPool)
  pools_of st = do
    redis_pool? ← get_redis_pool C st
    redis_pool ← unwrap redis_pool?
    lapin_pool? ← get_lapin_pool C st
    lapin_pool ← unwrap lapin_pool?
    seaorm_pool? ← get_seaorm_pool C st
    seaorm_pool ← unwrap seaorm_pool?
    done (seaorm_pool, lapin_pool, redis_pool)

  unfoldable pub check_health : Storage C → Pings → Outcome Progress
  unfolding pools_of report_all
  check_health st pings = pools_of st >>= λ pools. report_all pings
