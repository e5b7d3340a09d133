-- ===== src/Examples/StartRuns.antt =====
-- The theorems on the start of the server, the migrations and the engine, at concrete inputs.
use hoopoe.Base.{
  Text, codes, List, [], ◌∷◌, true, none, some, done, ◌≡◌, ◌≢◌, refl, arith, ◌>>=◌, ap, ◌∙◌,
  text_eq, parse_usize, show_i64,
}
use hoopoe.Storage.Buffer.{new_buffer}
use hoopoe.Storage.Database.{Event, new_database, pushed, round, run_engine}
use hoopoe.Storage.DatabaseLaws.{run_engine_lem}
use hoopoe.Storage.Engine.{Storage, Mode, new_storage, redis_conn_url, rmq_addr}
use hoopoe.Start.Config.{Env, field, var_names}
use hoopoe.Start.ConfigLaws.{all_set, values}
use hoopoe.Start.Routes
use hoopoe.Start.Routes.{Route, served}
use hoopoe.Start.RoutesLaws.{IsGuarded, served-IsGuarded}
use hoopoe.Start.Server.{Machine, arguments, still, tcp, vars_of, main}
use hoopoe.Start.ServerLaws.{main_lem, served_app, serve}
use hoopoe.Schema.Migrator.{migrations, on_ok, run_ups, run_downs}
use hoopoe.Schema.MigratorLaws.{run_downs-run_ups}
use hoopoe.Workers.Stock.{Monitor, Run, released, stock_price_event}
use hoopoe.Workers.StockLaws.{wait_can_last}
use hoopoe.Examples.More.{connections}
use hoopoe.Examples.Schemas.{MadeTable, manager, manager_laws, has}

-- Each variable is 1, so that the storage has no pools.
abbrev machine : Machine
machine = record {
  environment = record { has_file = true; var = λ name. some (codes "1") };
  parse = arguments (record { server = codes "http"; fresh = true });
  connects = λ url. true;
  can_bind = λ acceptor. true;
  id = codes "7";
}

abbrev env : Env
env = values (λ name. some (codes "1")) var_names

-- The engine is not named postgres.
abbrev no_pools : Storage connections
no_pools = record {
  id = codes "7";
  bucket = some (record {
    mode = Mode.off;
    redis_async_pubsub_conn = none;
    locker = none;
    seaorm_pool = none;
    lapin_pool = none;
    redis_pool = none;
  });
}

stored : new_storage connections (vars_of env) (codes "7") ≡ done (some no_pools)
unfolding new_storage text_eq parse_usize redis_conn_url rmq_addr show_i64 vars_of field values
stored = refl

main_example :
    main connections machine
    ≡ done (still (tcp (codes "1:1"), served_app connections env (some no_pools)))
unfolding all_set
main_example = main_lem connections machine ∙ ap (serve connections machine env) stored

abbrev join_path : List Text
join_path = codes "v1/hoop" ∷ codes "user" ∷ []

abbrev join_route : Route
join_route = record {
  path = join_path;
  method = Routes.Method.post;
  middlewares =
      Routes.Middleware.compression ∷ Routes.Middleware.logger ∷ Routes.Middleware.inject_app_ctx
      ∷ Routes.Middleware.cors ∷ Routes.Middleware.max_concurrency ∷ Routes.Middleware.check_token
      ∷ [];
  handler = Routes.Handler.join_hoop;
}

join_is_served : served Routes.Method.post join_path ≡ some join_route
unfolding served Routes.dispatch Routes.same_path Routes.takes Routes.routes Routes.child_routes
    Routes.own_routes Routes.build_router Routes.with_path Routes.hoop Routes.on Routes.push
    Routes.push_last Routes.unshift Routes.hoop_controller Routes.health_controller
    Routes.auth_controller Routes.notif_controller Routes.notif_ws_controller
    Routes.register_app_controllers text_eq
join_is_served = refl

served-IsGuarded_example : IsGuarded join_route
served-IsGuarded_example = served-IsGuarded Routes.Method.post join_path join_is_served

abbrev other_table : List MadeTable
other_table = record { name = codes "users"; parts = [] } ∷ []

run_downs-run_ups_example :
    (run_ups manager (migrations manager) other_table
      >>= on_ok manager (run_downs manager (migrations manager)))
    ≡ done (other_table, true)
unfolding has text_eq
run_downs-run_ups_example =
    run_downs-run_ups manager manager_laws other_table refl refl refl (λ asked. refl)

abbrev event : Event
event = record { id = codes "1"; data_text = codes "x"; time = 5 }

run_engine_example :
    ((run_engine (pushed event ∷ round ∷ pushed event ∷ []) new_database).saved ≡ [])
    × ((run_engine (pushed event ∷ round ∷ pushed event ∷ []) new_database).event_buf.atomic_data
        ≡ event ∷ event ∷ [])
unfolding new_database new_buffer
run_engine_example =
    run_engine_lem (pushed event ∷ round ∷ pushed event ∷ []) new_database 1025 refl

wait_can_last_example :
    (m : Monitor) × Run (stock_price_event 100 (112 ∷ 110 ∷ 120 ∷ [])) m
    × (m.updates ≡ [])
    × ((m' : Monitor) → Run m m' → m'.watcher ≢ released)
wait_can_last_example = wait_can_last 100 110 (112 ∷ []) (120 ∷ []) (omega arith)
