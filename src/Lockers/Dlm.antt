-- ===== src/Lockers/Dlm.antt =====
-- src/lockers/dlm.rs: the distributed lock, which only holds a lock manager of the crate rslock.
use hoopoe.Base.{Option}

pub data ManagerKind : Type 0 where
  red_lock zoo_keeper : ManagerKind

pub record DistLock (LockManager : Type 0) : Type 0 where
  pub manager : ManagerKind
  pub locker : Option LockManager

unfoldable pub new_redlock : {LockManager : Type 0} → Option LockManager → DistLock LockManager
new_redlock locker = record { manager = red_lock; locker = locker }
