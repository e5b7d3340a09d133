-- ===== src/Schema/Hoops.antt =====
-- migration/src/m20240503_190902_hoops.rs.
use hoopoe.Base.{codes, [], ◌∷◌, Bool, true, Outcome, done}
use hoopoe.Schema.Manager.{
  integer, big_integer, string, boolean, timestamp_with_time_zone, char_len, not_null,
  auto_increment, primary_key, default_false, default_current_timestamp, column, TableCreate,
  IndexCreate, SchemaManager, Migration,
}

unfoldable pub hoops_table : TableCreate
hoops_table = record {
  table = codes "hoops";
  cols =
      column (codes "id") integer (not_null ∷ auto_increment ∷ primary_key ∷ [])
      ∷ column (codes "title") string (not_null ∷ [])
      ∷ column (codes "description") string (not_null ∷ [])
      ∷ column (codes "cover") string (not_null ∷ [])
      ∷ column (codes "etype") (char_len 10) (not_null ∷ [])
      ∷ column (codes "manager") integer (not_null ∷ [])
      ∷ column (codes "entrance_fee") big_integer (not_null ∷ [])
      ∷ column (codes "duration") big_integer (not_null ∷ [])
      ∷ column (codes "capacity") big_integer (not_null ∷ [])
      ∷ column (codes "started_at") timestamp_with_time_zone (not_null ∷ [])
      ∷ column (codes "end_at") timestamp_with_time_zone (not_null ∷ [])
      ∷ column (codes "is_finished") boolean (default_false ∷ [])
      ∷ column (codes "is_locked") boolean (default_false ∷ [])
      ∷ column (codes "created_at") timestamp_with_time_zone
          (default_current_timestamp ∷ not_null ∷ [])
      ∷ column (codes "updated_at") timestamp_with_time_zone
          (default_current_timestamp ∷ not_null ∷ [])
      ∷ [];
}

abbrev pub etype_index : IndexCreate
etype_index = record { name = codes "idx-le-etype"; table = codes "hoops"; col = codes "etype" }

abbrev pub manager_index : IndexCreate
manager_index = record { name = codes "idx-le-man"; table = codes "hoops"; col = codes "manager" }

module _ (M : SchemaManager) where
  -- The answers of the manager are dropped.
  unfoldable pub hoops_up : M.Database → Outcome (M.Database × Bool)
  hoops_up db =
      let created : M.Database = (M.create_table hoops_table db).0 in
      let indexed : M.Database = (M.create_index etype_index created).0 in
      done ((M.create_index manager_index indexed).0, true)

  unfoldable pub hoops_migration : Migration M.Database
  unfolding hoops_up
  hoops_migration = record { up = hoops_up; down = λ db. done (M.drop_table (codes "hoops") db) }
