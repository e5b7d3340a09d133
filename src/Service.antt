-- ===== src/Service.antt =====
-- What the code calls and does not implement: Redis, serde, themis and hex. Each is a record of
-- functions with the documented laws that the code relies on; `Services` joins them.
pub mod Redis
pub mod Serde
pub mod Cell
pub mod Http
pub mod RedisLaws
pub mod Rabbit
use Redis.{RedisApi}
use Serde.{SerdeApi}
use Cell.{CellApi}

pub record Services : Type 1 where
  pub redis : RedisApi
  pub open redis use *
  pub serde : SerdeApi
  pub open serde use *
  pub cell : CellApi
  pub open cell use *
