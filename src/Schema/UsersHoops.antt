-- ===== src/Schema/UsersHoops.antt =====
-- migration/src/m20240731_082953_users_hoops.rs.
use hoopoe.Base.{codes, [], ◌∷◌, Bool, true, Outcome, done}
use hoopoe.Schema.Manager.{
  integer, big_integer, boolean, not_null, auto_increment, primary_key, column, TableCreate,
  ForeignKeyCreate, SchemaManager, Migration,
}

unfoldable pub users_hoops_table : TableCreate
users_hoops_table = record {
  table = codes "users_hoops";
  cols =
      column (codes "id") integer (not_null ∷ auto_increment ∷ primary_key ∷ [])
      ∷ column (codes "user_id") integer (not_null ∷ [])
      ∷ column (codes "hoop_id") integer (not_null ∷ [])
      ∷ column (codes "is_invited") boolean (not_null ∷ [])
      ∷ column (codes "joined_at") big_integer (not_null ∷ [])
      ∷ column (codes "left_at") big_integer (not_null ∷ [])
      ∷ [];
}

abbrev pub hoop_id_key : ForeignKeyCreate
hoop_id_key = record {
  name = codes "FK_hoop_id";
  from_table = codes "users_hoops";
  from_col = codes "hoop_id";
  to_table = codes "hoops";
  to_col = codes "id";
}

module _ (M : SchemaManager) where
  -- The answers of the manager are dropped, in `down` too.
  unfoldable pub users_hoops_up : M.Database → Outcome (M.Database × Bool)
  users_hoops_up db =
      let created : M.Database = (M.create_table users_hoops_table db).0 in
      done ((M.create_foreign_key hoop_id_key created).0, true)

  unfoldable pub users_hoops_down : M.Database → Outcome (M.Database × Bool)
  users_hoops_down db = done ((M.drop_table (codes "users_hoops") db).0, true)

  unfoldable pub users_hoops_migration : Migration M.Database
  unfolding users_hoops_up users_hoops_down
  users_hoops_migration = record { up = users_hoops_up; down = users_hoops_down }
