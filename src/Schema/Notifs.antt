-- ===== src/Schema/Notifs.antt =====
-- migration/src/m20240508_213126_notifs.rs.
use hoopoe.Base.{Text, codes, [], ◌∷◌, Bool, true, Outcome, done, panic, if◌then◌else◌}
use hoopoe.Schema.Manager.{
  integer, string, boolean, json, timestamp, not_null, auto_increment, primary_key, column,
  TableCreate, IndexCreate, SchemaManager, Migration,
}

unfoldable pub notifs_table : TableCreate
notifs_table = record {
  table = codes "notifs";
  cols =
      column (codes "id") integer (not_null ∷ auto_increment ∷ primary_key ∷ [])
      ∷ column (codes "receiver_info") string (not_null ∷ [])
      ∷ column (codes "nid") string (not_null ∷ [])
      ∷ column (codes "action_data") json (not_null ∷ [])
      ∷ column (codes "actioner_info") string (not_null ∷ [])
      ∷ column (codes "action_type") string (not_null ∷ [])
      ∷ column (codes "fired_at") timestamp (not_null ∷ [])
      ∷ column (codes "is_seen") boolean (not_null ∷ [])
      ∷ [];
}

abbrev pub fired_at_index : IndexCreate
fired_at_index = record {
  name = codes "idx-le-fired-at";
  table = codes "notifs";
  col = codes "fired_at";
}

abbrev pub current_date : Text
current_date = codes "SELECT CURRENT_DATE;"

module _ (M : SchemaManager) where
  unfoldable pub notifs_create : M.Database → M.Database
  notifs_create db = (M.create_index fired_at_index (M.create_table notifs_table db).0).0

  -- The query is unwrapped, the answers of the manager are dropped.
  unfoldable pub notifs_up : M.Database → Outcome (M.Database × Bool)
  unfolding notifs_create
  notifs_up db =
      let (asked, ok) = M.execute_unprepared current_date db in
      if ok then done (notifs_create asked, true) else panic

  unfoldable pub notifs_migration : Migration M.Database
  unfolding notifs_up
  notifs_migration = record { up = notifs_up; down = λ db. done (M.drop_table (codes "notifs") db) }
