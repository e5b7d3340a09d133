-- ===== src/Examples/WorkerRuns.antt =====
-- The theorems on the thread pools of src/workers/actor.rs, at concrete inputs.
use hoopoe.Base.{ℕ, [], ◌∷◌, ◌++◌, false, done, panic, ◌≡◌, ◌≢◌, refl}
use hoopoe.Workers.Tasks
use hoopoe.Workers.Tasks.{TaskResult, ok, err, AsyncWorker, send_result}
use hoopoe.Workers.TasksLaws.{verdict_of, some_error, execute-verdict}
use hoopoe.Workers.Threads
use hoopoe.Workers.Threads.{
  Thread, at_loop, at_lock, unwound, NativeSyncWorker, new_workers, is_dropped, send, take_message,
  worker_turn, send_terminates, joined, join_all,
}
use hoopoe.Workers.ThreadsLaws.{executed_in_order, waiting_jobs}
use hoopoe.Workers.JoinLaws.{drop_never_ends}

-- Three tasks, of which the last one spawned ends first and the second one panics.
abbrev ended_tasks : AsyncWorker ℕ
ended_tasks = record { count = 3; running = []; receiver = err 7 ∷ ok ∷ [] }

tasks_run : Tasks.Reached (done (err 7) ∷ panic ∷ done ok ∷ []) ended_tasks
unfolding Tasks.new Tasks.spawn send_result
tasks_run = Tasks.Reached.ended (done ok) [] [] refl (
    Tasks.Reached.ended panic (done ok ∷ []) [] refl (
      Tasks.Reached.ended (done (err 7)) (done ok ∷ panic ∷ []) [] refl (
        Tasks.Reached.spawned (done (err 7))
          (Tasks.Reached.spawned panic (Tasks.Reached.spawned (done ok) Tasks.Reached.start)))))

execute-verdict_example : verdict_of (Tasks.execute ended_tasks) ≡ some_error
execute-verdict_example = execute-verdict tasks_run refl

-- Two threads and two jobs; the second thread takes the first job, then the pool is dropped and the
-- first thread takes the other one.
abbrev two_threads : NativeSyncWorker
two_threads = record {
  workers = at_lock ∷ at_lock ∷ [];
  receiver = Threads.Message.terminate ∷ Threads.Message.terminate ∷ [];
  poisoned = false;
  executed = 5 ∷ 6 ∷ [];
}

threads_run : Threads.Reached (5 ∷ 6 ∷ []) two_threads
unfolding Threads.spawn new_workers is_dropped send Threads.execute take_message worker_turn
    send_terminates
threads_run = Threads.Reached.turned [] at_lock (at_lock ∷ []) refl (
    Threads.Reached.turned [] at_loop (at_lock ∷ []) refl (
      Threads.Reached.dropped refl (
        Threads.Reached.turned (at_loop ∷ []) at_lock [] refl (
          Threads.Reached.turned (at_loop ∷ []) at_loop [] refl (
            Threads.Reached.called 6 false refl
              (Threads.Reached.called 5 false refl (Threads.Reached.spawned 2 refl)))))))

executed_in_order_example : two_threads.executed ++ waiting_jobs two_threads.receiver ≡ 5 ∷ 6 ∷ []
executed_in_order_example = executed_in_order threads_run

drop_never_ends_example : join_all two_threads.workers ≢ joined
drop_never_ends_example = drop_never_ends threads_run
