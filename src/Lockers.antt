-- ===== src/Lockers.antt =====
-- Minting a product once: src/lockers/llm.rs, and the handler `mint` of src/apis/v1/http/health.rs.
pub mod Minting
pub mod Steps
pub mod Unique
pub mod Calls
pub mod Held
pub mod Locks
pub mod Bounded
pub mod Finished
pub mod Overlap
pub mod Dlm
