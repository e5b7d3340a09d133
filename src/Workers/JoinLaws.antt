-- ===== src/Workers/JoinLaws.antt =====
-- Whether the destructor of `NativeSyncWorker` of src/workers/actor.rs ends: the threads at the end
-- of whose `while let` the `loop` starts again.
use hoopoe.Base.{
  ℕ, zero, suc, ◌+◌, ◌≤◌, List, [], ◌∷◌, ◌++◌, Bool, true, false, done, ◌≡◌, ◌≢◌, refl, arith, ap,
  ◌∙◌, if◌then◌else◌, ◌==◌, length, length-append, >>=-eq-done, done-injective, inl, inr,
  Bool-cases, sym,
}
use hoopoe.Workers.Threads.{
  Message, new_job, terminate, Thread, at_loop, at_lock, unwound, over, NativeSyncWorker,
  new_workers, spawn, send, execute, take_message, worker_turn, send_terminates, joined, join_all,
  Reached, spawned, called, dropped, turned,
}
use hoopoe.Workers.ThreadsLaws.{spawn-done, send-done}

abbrev one_over : Thread → ℕ
one_over over = 1
one_over _ = 0

-- How many threads could be joined without an error.
abbrev over_threads : List Thread → ℕ
over_threads [] = 0
over_threads (t ∷ workers) = one_over t + over_threads workers

over_threads-append :
    (xs ys : List Thread) → over_threads (xs ++ ys) ≡ over_threads xs + over_threads ys
over_threads-append [] ys = omega arith
over_threads-append (x ∷ xs) ys = omega (arith, over_threads-append xs ys)

over_threads-new_workers : (size : ℕ) → over_threads (new_workers size) ≡ 0
unfolding new_workers
over_threads-new_workers zero = refl
over_threads-new_workers (suc size) = omega (arith, over_threads-new_workers size)

length-new_workers : (size : ℕ) → length (new_workers size) ≡ size
unfolding new_workers
length-new_workers zero = refl
length-new_workers (suc size) = omega (arith, length-new_workers size)

take_message-over :
    (w : NativeSyncWorker) (receiver : List Message) → one_over (take_message w receiver).0 ≡ 0
unfolding take_message
take_message-over w [] = refl
take_message-over w (new_job job false ∷ rest) = refl
take_message-over w (new_job job true ∷ rest) = refl
take_message-over w (terminate ∷ rest) = refl

locked_turn-over :
    (poisoned : Bool) (w : NativeSyncWorker)
    → one_over (if poisoned then (unwound, w) else take_message w w.receiver).0 ≡ 0
locked_turn-over true w = refl
locked_turn-over false w = take_message-over w w.receiver

worker_turn-over : (t : Thread) (w : NativeSyncWorker) → one_over (worker_turn t w).0 ≡ one_over t
unfolding worker_turn
worker_turn-over at_loop w = refl
worker_turn-over at_lock w = locked_turn-over w.poisoned w
worker_turn-over unwound w = refl
worker_turn-over over w = refl

workers-terminates :
    (n : ℕ) (w w' : NativeSyncWorker) → send_terminates n w ≡ done w' → w'.workers ≡ w.workers
unfolding send_terminates
workers-terminates zero w w' e = ap (λ p. p.workers) (sym (done-injective e))
workers-terminates (suc n) w w' e =
    let (w'', sent, rest) = >>=-eq-done (send terminate w) (send_terminates n) e in
    workers-terminates n w'' w' rest ∙ ap (λ p. p.workers) (send-done terminate w w'' sent)

asked : (size : ℕ) (w : NativeSyncWorker) → spawn size ≡ done w → 1 ≤ size
unfolding spawn
asked size w e = elim (Bool-cases (size == 0)) [
  | inl none_asked ↦ absurd (ground (arith, e, none_asked))
  | inr some_asked ↦ ground (arith, some_asked)
]

-- Threads are never over, and there is one.
abbrev GoesOn : List Thread → Type 0
GoesOn workers = (over_threads workers ≡ 0) × (1 ≤ length workers)

Reached-GoesOn : {jobs : List ℕ} {w : NativeSyncWorker} → Reached jobs w → GoesOn w.workers
unfolding execute
Reached-GoesOn (spawned {w} size e) =
    let workers : w.workers ≡ new_workers size = ap (λ p. p.workers) (spawn-done size w e) in
    (
      ap over_threads workers ∙ over_threads-new_workers size,
      omega (arith, asked size w e, ap length workers, length-new_workers size),
    )
Reached-GoesOn (called {w = w} {w' = w'} job panics e r) =
    let workers : w'.workers ≡ w.workers =
      ap (λ p. p.workers) (send-done (new_job job panics) w w' e) in
    (
      ap over_threads workers ∙ (Reached-GoesOn r).0,
      omega (arith, (Reached-GoesOn r).1, ap length workers),
    )
Reached-GoesOn (dropped {w = w} {w' = w'} e r) =
    let workers : w'.workers ≡ w.workers = workers-terminates (length w.workers) w w' e in
    (
      ap over_threads workers ∙ (Reached-GoesOn r).0,
      omega (arith, (Reached-GoesOn r).1, ap length workers),
    )
Reached-GoesOn (turned {w = w} before thread after e r) =
    let next : Thread = (worker_turn thread w).0 in
    (
      omega (
        arith,
        (Reached-GoesOn r).0,
        ap over_threads e,
        over_threads-append before (thread ∷ after),
        over_threads-append before (next ∷ after),
        worker_turn-over thread w,
      ),
      omega (arith, length-append before (next ∷ after)),
    )

join_all-GoesOn : (workers : List Thread) → GoesOn workers → join_all workers ≢ joined
unfolding join_all
join_all-GoesOn [] g = absurd (omega (arith, g.1))
join_all-GoesOn (at_loop ∷ workers) g = λ e. cc
join_all-GoesOn (at_lock ∷ workers) g = λ e. cc
join_all-GoesOn (unwound ∷ workers) g = λ e. cc
join_all-GoesOn (over ∷ workers) g = absurd (omega (arith, g.0))

-- No thread of a pool ever returns: the message to terminate only ends the inner loop. So the joins
-- of the destructor never come to a good end, whichever turns the threads have.
pub drop_never_ends :
    {jobs : List ℕ} {w : NativeSyncWorker} → Reached jobs w → join_all w.workers ≢ joined
drop_never_ends {w = w} r = join_all-GoesOn w.workers (Reached-GoesOn r)
