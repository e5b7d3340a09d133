-- ===== src/Api.antt =====
-- Fetching notifications: `get_notif` of src/apis/v1/http/notif.rs and the accessor actor of
-- src/workers/cqrs/accessors/notif.rs, which caches its answers in Redis.
pub mod Accessor
pub mod Fetch
pub mod Register
pub mod Delivered
pub mod RegisterLaws
pub mod Laws
pub mod Untouched
pub mod Uncached
