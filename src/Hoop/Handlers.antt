-- ===== src/Hoop/Handlers.antt =====
-- src/apis/v1/http/hoop.rs: the handlers that are being developed.
use hoopoe.Base.{Text, codes, Option, Outcome, done, ◌>>=◌, unwrap}
use hoopoe.Models.{EventQuery}
use hoopoe.Storage.Engine.{Connections, Storage, get_redis_pool, get_seaorm_pool}

abbrev pub developing : Text
developing = codes "developing..."

unfoldable pub delete_hoop : Text
delete_hoop = developing

unfoldable pub update_hoop : Text
update_hoop = developing

unfoldable pub leave_hoop : Text
leave_hoop = developing

unfoldable pub join_hoop : Text
join_hoop = developing

module _ (C : Connections) where
  -- The pools are asked for and the queries parsed, and everything is unwrapped.
  unfoldable pub get_hoop : Option (Storage C) → Option EventQuery → Outcome Text
  get_hoop app_storage query_params = do
    storage ← unwrap app_storage
    redis? ← get_redis_pool C storage
    redis_pool ← unwrap redis?
    db? ← get_seaorm_pool C storage
    sea_orm_pool ← unwrap db?
    query ← unwrap query_params
    done developing
