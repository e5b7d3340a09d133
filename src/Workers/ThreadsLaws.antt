-- ===== src/Workers/ThreadsLaws.antt =====
-- What the threads of `NativeSyncWorker` of src/workers/actor.rs do, and whether they end.
use mathlib.Core.List.{append_assoc, append-nil}
use hoopoe.Base.{
  ℕ, zero, suc, List, [], ◌∷◌, ◌++◌, Bool, true, false, done, panic, ◌≡◌, refl, ap, sym, ◌∙◌,
  >>=-eq-done, done-injective, if◌then◌else◌, ◌==◌, length,
}
use hoopoe.Workers.Threads.{
  Message, new_job, terminate, Thread, at_loop, at_lock, unwound, over, NativeSyncWorker,
  new_workers, spawn, is_dropped, send, execute, take_message, worker_turn, send_terminates,
  Reached, spawned, called, dropped, turned,
}

-- The jobs that wait in the channel.
abbrev pub waiting_jobs : List Message → List ℕ
waiting_jobs [] = []
waiting_jobs (new_job job panics ∷ rest) = job ∷ waiting_jobs rest
waiting_jobs (terminate ∷ rest) = waiting_jobs rest

waiting_jobs-append :
    (xs ys : List Message) → waiting_jobs (xs ++ ys) ≡ waiting_jobs xs ++ waiting_jobs ys
waiting_jobs-append [] ys = refl
waiting_jobs-append (new_job job panics ∷ xs) ys = ap (λ js. job ∷ js) (waiting_jobs-append xs ys)
waiting_jobs-append (terminate ∷ xs) ys = waiting_jobs-append xs ys

-- The jobs that have been taken, and those that wait.
abbrev pub all_jobs : NativeSyncWorker → List ℕ
all_jobs w = w.executed ++ waiting_jobs w.receiver

take_message-jobs :
    (w : NativeSyncWorker) (receiver : List Message)
    → w.receiver ≡ receiver
    → all_jobs (take_message w receiver).1 ≡ all_jobs w
unfolding take_message
take_message-jobs w [] e = refl
take_message-jobs w (new_job job false ∷ rest) e =
    rw e (append_assoc w.executed (job ∷ []) (waiting_jobs rest))
take_message-jobs w (new_job job true ∷ rest) e =
    rw e (append_assoc w.executed (job ∷ []) (waiting_jobs rest))
take_message-jobs w (terminate ∷ rest) e = rw e refl

locked_turn-jobs :
    (poisoned : Bool) (w : NativeSyncWorker)
    → all_jobs (if poisoned then (unwound, w) else take_message w w.receiver).1 ≡ all_jobs w
locked_turn-jobs true w = refl
locked_turn-jobs false w = take_message-jobs w w.receiver refl

worker_turn-jobs : (t : Thread) (w : NativeSyncWorker) → all_jobs (worker_turn t w).1 ≡ all_jobs w
unfolding worker_turn
worker_turn-jobs at_loop w = refl
worker_turn-jobs at_lock w = locked_turn-jobs w.poisoned w
worker_turn-jobs unwound w = refl
worker_turn-jobs over w = refl

-- What is left where a guard lets a call pass.
pub passed :
    (guard : Bool) (p : NativeSyncWorker) {w : NativeSyncWorker}
    → (if guard then panic else done p) ≡ done w
    → w ≡ p
passed true p e = cc
passed false p e = sym (done-injective e)

abbrev pub new_pool : ℕ → NativeSyncWorker
new_pool size = record {
  workers = new_workers size;
  receiver = [];
  poisoned = false;
  executed = [];
}

pub spawn-done : (size : ℕ) (w : NativeSyncWorker) → spawn size ≡ done w → w ≡ new_pool size
unfolding spawn
spawn-done size w e = passed (size == 0) (new_pool size) e

pub send-done :
    (m : Message) (w w' : NativeSyncWorker)
    → send m w ≡ done w'
    → w' ≡ record w { receiver = w.receiver ++ m ∷ [] }
unfolding send
send-done m w w' e = passed (is_dropped w.workers) (record w { receiver = w.receiver ++ m ∷ [] }) e

all_jobs-send :
    (m : Message) (w w' : NativeSyncWorker)
    → send m w ≡ done w'
    → all_jobs w' ≡ all_jobs w ++ waiting_jobs (m ∷ [])
all_jobs-send m w w' e =
    ap all_jobs (send-done m w w' e)
    ∙ ap (λ js. w.executed ++ js) (waiting_jobs-append w.receiver (m ∷ []))
    ∙ sym (append_assoc w.executed (waiting_jobs w.receiver) (waiting_jobs (m ∷ [])))

all_jobs-terminates :
    (n : ℕ) (w w' : NativeSyncWorker) → send_terminates n w ≡ done w' → all_jobs w' ≡ all_jobs w
unfolding send_terminates
all_jobs-terminates zero w w' e = ap all_jobs (sym (done-injective e))
all_jobs-terminates (suc n) w w' e =
    let (w'', sent, rest) = >>=-eq-done (send terminate w) (send_terminates n) e in
    all_jobs-terminates n w'' w' rest ∙ all_jobs-send terminate w w'' sent ∙ append-nil (all_jobs w)

-- Whichever threads have a turn, the jobs are taken from the channel in the order of the calls, each
-- of them once.
pub executed_in_order :
    {jobs : List ℕ} {w : NativeSyncWorker}
    → Reached jobs w
    → w.executed ++ waiting_jobs w.receiver ≡ jobs
unfolding execute
executed_in_order (spawned {w} size e) = ap all_jobs (spawn-done size w e)
executed_in_order (called {jobs} {w} {w'} job panics e r) =
    all_jobs-send (new_job job panics) w w' e ∙ ap (λ js. js ++ job ∷ []) (executed_in_order r)
executed_in_order (dropped {w = w} {w' = w'} e r) =
    all_jobs-terminates (length w.workers) w w' e ∙ executed_in_order r
executed_in_order (turned {w = w} before thread after e r) =
    worker_turn-jobs thread w ∙ executed_in_order r
