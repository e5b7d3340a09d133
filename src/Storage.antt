-- ===== src/Storage.antt =====
-- Where the program keeps what it shares: src/storage/engine.rs and the buffer of src/storage/cruft.rs.
pub mod Buffer
pub mod BufferLaws
pub mod Engine
pub mod EngineLaws
pub mod Database
pub mod DatabaseLaws
