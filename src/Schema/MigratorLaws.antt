-- ===== src/Schema/MigratorLaws.antt =====
-- What the migrations of migration/src leave in a database.
use hoopoe.Base.{
  Text, codes, Bool, true, false, done, panic, ◌>>=◌, ◌≡◌, refl, ◌∙◌, ◌⊎◌, inl, inr, Bool-cases,
  text_eq,
}
use hoopoe.Schema.Manager.{SchemaManager, ManagerLaws}
use hoopoe.Schema.Hoops.{hoops_table, etype_index, manager_index, hoops_up, hoops_migration}
use hoopoe.Schema.Notifs.{
  notifs_table, fired_at_index, current_date, notifs_up, notifs_create, notifs_migration,
}
use hoopoe.Schema.UsersHoops.{
  users_hoops_table, hoop_id_key, users_hoops_up, users_hoops_down, users_hoops_migration,
}
use hoopoe.Schema.Migrator.{migrations, on_ok, run_ups, run_downs}

module _ (M : SchemaManager) where
  made_hoops : M.Database → M.Database
  made_hoops db =
      (M.create_index manager_index
        (M.create_index etype_index (M.create_table hoops_table db).0).0).0

  made_users_hoops : M.Database → M.Database
  made_users_hoops db = (M.create_foreign_key hoop_id_key (M.create_table users_hoops_table db).0).0

  -- Whatever the database answers, applying the migrations is Ok, or panics if the query for the date
  -- fails: that a table, an index or the key could not be made is never an error.
  pub run_ups-ok :
      (db : M.Database)
      → (run_ups M (migrations M) db ≡ panic)
        ⊎ ((after : M.Database) × (run_ups M (migrations M) db ≡ done (after, true)))
  unfolding migrations run_ups hoops_migration notifs_migration users_hoops_migration hoops_up
      notifs_up users_hoops_up made_hoops made_users_hoops
  run_ups-ok db =
      let asked : M.Database × Bool = M.execute_unprepared current_date (made_hoops db) in
      elim (Bool-cases (M.execute_unprepared current_date (made_hoops db)).1) [
        | inl ok ↦ inr (made_users_hoops (notifs_create M asked.0), rw ok refl)
        | inr failed ↦ inl (rw failed refl)
      ]

  module _ (L : ManagerLaws M) where
    hoops_undone :
        (db : M.Database)
        → M.has_table (codes "hoops") db ≡ false
        → M.drop_table (codes "hoops") (made_hoops db) ≡ (db, true)
    unfolding made_hoops hoops_table
    hoops_undone db absent =
        L.drop-create_index manager_index
          (M.create_index etype_index (M.create_table hoops_table db).0).0
        ∙ L.drop-create_index etype_index (M.create_table hoops_table db).0
        ∙ L.drop-create_table hoops_table db absent

    notifs_undone :
        (db : M.Database)
        → M.has_table (codes "notifs") db ≡ false
        → M.drop_table (codes "notifs") (notifs_create M db) ≡ (db, true)
    unfolding notifs_create notifs_table
    notifs_undone db absent =
        L.drop-create_index fired_at_index (M.create_table notifs_table db).0
        ∙ L.drop-create_table notifs_table db absent

    users_hoops_undone :
        (db : M.Database)
        → M.has_table (codes "users_hoops") db ≡ false
        → M.drop_table (codes "users_hoops") (made_users_hoops db) ≡ (db, true)
    unfolding made_users_hoops users_hoops_table
    users_hoops_undone db absent =
        L.drop-create_foreign_key hoop_id_key (M.create_table users_hoops_table db).0
        ∙ L.drop-create_table users_hoops_table db absent

    has-made_hoops :
        (name : Text) (db : M.Database)
        → text_eq (codes "hoops") name ≡ false
        → M.has_table name (made_hoops db) ≡ M.has_table name db
    unfolding made_hoops hoops_table
    has-made_hoops name db other =
        L.has-create_index name manager_index
          (M.create_index etype_index (M.create_table hoops_table db).0).0
        ∙ L.has-create_index name etype_index (M.create_table hoops_table db).0
        ∙ L.has-create_table name hoops_table db other

    has-notifs_create :
        (name : Text) (db : M.Database)
        → text_eq (codes "notifs") name ≡ false
        → M.has_table name (notifs_create M db) ≡ M.has_table name db
    unfolding notifs_create notifs_table
    has-notifs_create name db other =
        L.has-create_index name fired_at_index (M.create_table notifs_table db).0
        ∙ L.has-create_table name notifs_table db other

    -- In a database without the three tables, in which the query for the date can be asked, taking
    -- the migrations back in the opposite order after they were applied gives the database before.
    pub run_downs-run_ups :
        (db : M.Database)
        → M.has_table (codes "hoops") db ≡ false
        → M.has_table (codes "notifs") db ≡ false
        → M.has_table (codes "users_hoops") db ≡ false
        → ((asked : M.Database) → M.execute_unprepared current_date asked ≡ (asked, true))
        → (run_ups M (migrations M) db >>= on_ok M (run_downs M (migrations M))) ≡ done (db, true)
    unfolding migrations run_ups run_downs hoops_migration notifs_migration users_hoops_migration
        hoops_up notifs_up users_hoops_up users_hoops_down made_hoops made_users_hoops text_eq
    run_downs-run_ups db no_hoops no_notifs no_users query =
        let db1 : M.Database = made_hoops db in
        let db2 : M.Database = notifs_create M db1 in
        let users = users_hoops_undone db2 (
          has-notifs_create (codes "users_hoops") db1 refl
          ∙ has-made_hoops (codes "users_hoops") db refl
          ∙ no_users) in
        let notifs = notifs_undone db1 (has-made_hoops (codes "notifs") db refl ∙ no_notifs) in
        rw (query (made_hoops db)) (rw users (rw notifs (rw (hoops_undone db no_hoops) refl)))
