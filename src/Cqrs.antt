-- ===== src/Cqrs.antt =====
-- The rows of notifications: the mutator actor of src/workers/cqrs/mutators/notif.rs stores them, the
-- accessor actor of src/workers/cqrs/accessors/notif.rs reads one by its id and marks it as seen.
pub mod Table
pub mod Store
pub mod Seen
pub mod StoreLaws
pub mod SeenLaws
pub mod Failure
pub mod FailureLaws
