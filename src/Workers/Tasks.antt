-- ===== src/Workers/Tasks.antt =====
-- src/workers/actor.rs, workerthreadpool::_async: `AsyncWorker`, whose tasks send their results to
-- the one channel that `execute` reads.
use hoopoe.Base.{ℕ, suc, List, [], ◌∷◌, ◌++◌, Outcome, done, panic, if◌then◌else◌, ltb, ◌==◌, ◌≡◌}

pub data TaskResult (E : Type 0) : Type 0 where
  ok : TaskResult E
  err : E → TaskResult E

-- The tasks that still run, each with the end it will come to, and the channel.
pub record AsyncWorker (E : Type 0) : Type 0 where
  pub count : ℕ
  pub running : List (Outcome (TaskResult E))
  pub receiver : List (TaskResult E)

module _ {E : Type 0} where
  unfoldable pub new : AsyncWorker E
  new = record { count = 0; running = []; receiver = [] }

  unfoldable pub spawn : Outcome (TaskResult E) → AsyncWorker E → AsyncWorker E
  spawn task w = record w { count = suc w.count; running = w.running ++ task ∷ [] }

  -- A task that panics drops its sender without a message.
  unfoldable pub send_result : Outcome (TaskResult E) → List (TaskResult E) → List (TaskResult E)
  send_result panic receiver = receiver
  send_result (done res) receiver = receiver ++ res ∷ []

  -- The loop, once the channel is closed: `assert!` panics. After an error the rest is not read.
  unfoldable pub receive_all : ℕ → ℕ → List (TaskResult E) → Outcome (TaskResult E)
  receive_all count index [] = if index == count then done ok else panic
  receive_all count index (ok ∷ rest) =
      let later = receive_all count (suc index) rest in if ltb index count then later else panic
  receive_all count index (err e ∷ rest) = if ltb index count then done (err e) else panic

  unfoldable pub execute : AsyncWorker E → Outcome (TaskResult E)
  unfolding receive_all
  execute w = receive_all w.count 0 w.receiver

-- The pools that are reached by spawning these tasks, any of which may end at any time.
pub data Reached {E : Type 0} : List (Outcome (TaskResult E)) → AsyncWorker E → Type 0 where
  start : Reached [] new
  spawned :
      {tasks : List (Outcome (TaskResult E))} {w : AsyncWorker E} (task : Outcome (TaskResult E))
      → Reached tasks w
      → Reached (task ∷ tasks) (spawn task w)
  ended :
      {tasks : List (Outcome (TaskResult E))} {w : AsyncWorker E} (task : Outcome (TaskResult E))
      (before after : List (Outcome (TaskResult E)))
      → w.running ≡ before ++ task ∷ after
      → Reached tasks w
      → Reached tasks
          (record w { running = before ++ after; receiver = send_result task w.receiver })
