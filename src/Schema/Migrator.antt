-- ===== src/Schema/Migrator.antt =====
-- migration/src/lib.rs: the migrations in their order, run up to the first error.
use hoopoe.Base.{List, [], ◌∷◌, Bool, true, Outcome, done, ◌>>=◌, if◌then◌else◌}
use hoopoe.Schema.Manager.{SchemaManager, Migration}
use hoopoe.Schema.Hoops.{hoops_migration}
use hoopoe.Schema.Notifs.{notifs_migration}
use hoopoe.Schema.UsersHoops.{users_hoops_migration}

module _ (M : SchemaManager) where
  unfoldable pub migrations : List (Migration M.Database)
  migrations = hoops_migration M ∷ notifs_migration M ∷ users_hoops_migration M ∷ []

  abbrev pub on_ok :
      (M.Database → Outcome (M.Database × Bool)) → M.Database × Bool → Outcome (M.Database × Bool)
  on_ok next (db, ok) = if ok then next db else done (db, ok)

  unfoldable pub run_ups : List (Migration M.Database) → M.Database → Outcome (M.Database × Bool)
  run_ups [] db = done (db, true)
  run_ups (m ∷ ms) db = m.up db >>= on_ok (run_ups ms)

  -- The last migration is taken back first.
  unfoldable pub run_downs : List (Migration M.Database) → M.Database → Outcome (M.Database × Bool)
  run_downs [] db = done (db, true)
  run_downs (m ∷ ms) db = run_downs ms db >>= on_ok m.down
