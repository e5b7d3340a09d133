-- ===== src/Start.antt =====
-- How the server comes up: src/app.rs, src/server/mod.rs, src/context/mod.rs, src/config/mod.rs,
-- src/cli/mod.rs and src/routers/mod.rs.
pub mod Config
pub mod ConfigLaws
pub mod Routes
pub mod RoutesLaws
pub mod Server
pub mod ServerLaws
