-- ===== src/Workers/Threads.antt =====
-- src/workers/actor.rs, workerthreadpool::sync: `NativeSyncWorker`, its threads and its destructor.
use hoopoe.Base.{
  ℕ, zero, suc, List, [], ◌∷◌, ◌++◌, Bool, true, false, Outcome, done, panic, if◌then◌else◌, ◌==◌,
  ◌≡◌, ◌>>=◌, length,
}

-- A job has a name; it may panic.
pub data Message : Type 0 where
  new_job : ℕ → (panics : Bool) → Message
  terminate : Message

-- A thread is at the head of `loop`, or at the lock in the `while let`, or has unwound, or is over.
pub data Thread : Type 0 where
  at_loop at_lock unwound over : Thread

pub record NativeSyncWorker : Type 0 where
  pub workers : List Thread
  pub receiver : List Message
  pub poisoned : Bool
  pub executed : List ℕ

unfoldable pub new_workers : ℕ → List Thread
new_workers zero = []
new_workers (suc size) = at_loop ∷ new_workers size

unfoldable pub spawn : ℕ → Outcome NativeSyncWorker
unfolding new_workers
spawn size =
    if size == 0
    then panic
    else done
        (record { workers = new_workers size; receiver = []; poisoned = false; executed = [] })

-- The receiver is dropped with the last of the threads.
unfoldable pub is_dropped : List Thread → Bool
is_dropped [] = true
is_dropped (unwound ∷ workers) = is_dropped workers
is_dropped (over ∷ workers) = is_dropped workers
is_dropped (at_loop ∷ workers) = false
is_dropped (at_lock ∷ workers) = false

unfoldable pub send : Message → NativeSyncWorker → Outcome NativeSyncWorker
unfolding is_dropped
send message w =
    if is_dropped w.workers
    then panic
    else done (record w { receiver = w.receiver ++ message ∷ [] })

unfoldable pub execute : ℕ → Bool → NativeSyncWorker → Outcome NativeSyncWorker
unfolding send
execute job panics w = send (new_job job panics) w

-- A turn of one thread. The guard of the lock lives as long as the body of the `while let`, so a job
-- that panics poisons the lock. `recv` fails only without a sender, which the pool keeps.
unfoldable pub take_message : NativeSyncWorker → List Message → Thread × NativeSyncWorker
take_message w [] = (at_lock, w)
take_message w (new_job job false ∷ rest) =
    (at_lock, record w { receiver = rest; executed = w.executed ++ job ∷ [] })
take_message w (new_job job true ∷ rest) =
    (unwound, record w { receiver = rest; executed = w.executed ++ job ∷ []; poisoned = true })
take_message w (terminate ∷ rest) = (at_loop, record w { receiver = rest })

unfoldable pub worker_turn : Thread → NativeSyncWorker → Thread × NativeSyncWorker
unfolding take_message
worker_turn at_loop w = (at_lock, w)
worker_turn at_lock w = if w.poisoned then (unwound, w) else take_message w w.receiver
worker_turn unwound w = (unwound, w)
worker_turn over w = (over, w)

-- The first loop of `drop`.
unfoldable pub send_terminates : ℕ → NativeSyncWorker → Outcome NativeSyncWorker
unfolding send
send_terminates zero w = done w
send_terminates (suc n) w = send terminate w >>= send_terminates n

-- Its second loop: the joins wait for a thread that goes on, and unwrap the error of one that
-- unwound.
pub data Joined : Type 0 where
  joined waits unwrap_fails : Joined

unfoldable pub join_all : List Thread → Joined
join_all [] = joined
join_all (over ∷ workers) = join_all workers
join_all (unwound ∷ workers) = unwrap_fails
join_all (at_loop ∷ workers) = waits
join_all (at_lock ∷ workers) = waits

-- The pools that are reached by executing these jobs, and dropping, with turns of any threads.
pub data Reached : List ℕ → NativeSyncWorker → Type 0 where
  spawned : {w : NativeSyncWorker} (size : ℕ) → spawn size ≡ done w → Reached [] w
  called :
      {jobs : List ℕ} {w w' : NativeSyncWorker} (job : ℕ) (panics : Bool)
      → execute job panics w ≡ done w'
      → Reached jobs w
      → Reached (jobs ++ job ∷ []) w'
  dropped :
      {jobs : List ℕ} {w w' : NativeSyncWorker}
      → send_terminates (length w.workers) w ≡ done w'
      → Reached jobs w
      → Reached jobs w'
  turned :
      {jobs : List ℕ} {w : NativeSyncWorker} (before : List Thread) (thread : Thread)
      (after : List Thread)
      → w.workers ≡ before ++ thread ∷ after
      → Reached jobs w
      → Reached jobs
          (record (worker_turn thread w).1 { workers = before ++ (worker_turn thread w).0 ∷ after })
