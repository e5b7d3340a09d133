-- ===== src/Examples.antt =====
-- Services that run: a Redis that is an association list, a serialisation, hex, and a cell that
-- seals nothing. The witnesses and the tests of the other modules stand on them.
mod Hex
mod Wire
mod Toy
mod BrokerRuns
mod ConsumeRuns
mod AccessRuns
mod WorkerRuns
mod HubRuns
mod ApiRuns
mod More
mod Schemas
mod StartRuns
mod LockRuns
mod FileRuns
mod RowRuns
mod RegisterRuns
pub mod HistoryRuns
