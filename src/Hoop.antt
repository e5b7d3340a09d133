-- ===== src/Hoop.antt =====
-- A hoop's end: src/apis/v1/http/hoop.rs sets a key in Redis that expires then,
-- src/workers/scheduler/mod.rs listens for expired keys, and the mutator actor of
-- src/workers/cqrs/mutators/hoop.rs marks hoops as finished.
pub mod Add
pub mod Schedule
pub mod Laws
pub mod Mutator
pub mod MutatorLaws
pub mod Cron
pub mod CronLaws
pub mod Handlers
