-- ===== src/Workers.antt =====
-- The thread pools of src/workers/actor.rs, module workerthreadpool.
pub mod Tasks
pub mod Rayon
pub mod RayonLaws
pub mod TasksLaws
pub mod Stock
pub mod StockLaws
pub mod Garage
pub mod GarageLaws
pub mod Threads
pub mod ThreadsLaws
pub mod JoinLaws
