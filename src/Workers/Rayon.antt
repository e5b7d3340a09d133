-- ===== src/Workers/Rayon.antt =====
-- src/workers/actor.rs, workerthreadpool::sync: `RayonSyncWorker`. A job goes through rayon to the
-- channel, and `execute` runs it.
use hoopoe.Base.{ℕ, suc, List, [], ◌∷◌, ◌++◌, Outcome, done, panic, if◌then◌else◌, ltb, ◌==◌, ◌≡◌}

-- Jobs have names. Those that rayon has yet to send, and the channel.
pub record RayonSyncWorker : Type 0 where
  pub count : ℕ
  pub fired : List ℕ
  pub receiver : List ℕ

unfoldable pub new : RayonSyncWorker
new = record { count = 0; fired = []; receiver = [] }

unfoldable pub spawn : ℕ → RayonSyncWorker → RayonSyncWorker
spawn job w = record w { count = suc w.count; fired = w.fired ++ job ∷ [] }

-- The loop, once the channel is closed, with the jobs that it has run.
unfoldable pub run_jobs : ℕ → ℕ → List ℕ → List ℕ → Outcome (List ℕ)
run_jobs count index executed [] = if index == count then done executed else panic
run_jobs count index executed (job ∷ rest) =
    let later = run_jobs count (suc index) (executed ++ job ∷ []) rest in
    if ltb index count then later else panic

unfoldable pub execute : RayonSyncWorker → Outcome (List ℕ)
unfolding run_jobs
execute w = run_jobs w.count 0 [] w.receiver

-- The pools that are reached by spawning these jobs, any of which rayon may send at any time.
pub data Reached : List ℕ → RayonSyncWorker → Type 0 where
  start : Reached [] new
  spawned :
      {jobs : List ℕ} {w : RayonSyncWorker} (job : ℕ)
      → Reached jobs w
      → Reached (job ∷ jobs) (spawn job w)
  sent :
      {jobs : List ℕ} {w : RayonSyncWorker} (job : ℕ) (before after : List ℕ)
      → w.fired ≡ before ++ job ∷ after
      → Reached jobs w
      → Reached jobs (record w { fired = before ++ after; receiver = w.receiver ++ job ∷ [] })
