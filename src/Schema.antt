-- ===== src/Schema.antt =====
-- The migrations of migration/src: the tables, indexes and keys of the database.
pub mod Manager
pub mod Hoops
pub mod Notifs
pub mod UsersHoops
pub mod Migrator
pub mod MigratorLaws
