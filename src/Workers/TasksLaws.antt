-- ===== src/Workers/TasksLaws.antt =====
-- What `execute` of src/workers/actor.rs answers does not depend on the order of the tasks.
use hoopoe.Base.{
  ℕ, suc, ◌+◌, List, [], ◌∷◌, ◌++◌, Outcome, done, panic, ◌≡◌, refl, arith, ap, ◌∙◌, if◌then◌else◌,
  ◌==◌, length, length-append,
}
use hoopoe.Workers.Tasks.{
  TaskResult, ok, err, AsyncWorker, new, spawn, send_result, receive_all, execute, Reached, start,
  spawned, ended,
}

pub data Verdict : Type 0 where
  all_ok some_error panicked : Verdict

module _ {E : Type 0} where
  abbrev pub verdict_of : Outcome (TaskResult E) → Verdict
  verdict_of panic = panicked
  verdict_of (done ok) = all_ok
  verdict_of (done (err e)) = some_error

  abbrev error_of : TaskResult E → ℕ
  error_of ok = 0
  error_of (err e) = 1

  abbrev errors_of : List (TaskResult E) → ℕ
  errors_of [] = 0
  errors_of (res ∷ rest) = error_of res + errors_of rest

  abbrev task_error : Outcome (TaskResult E) → ℕ
  task_error panic = 0
  task_error (done res) = error_of res

  abbrev task_panic : Outcome (TaskResult E) → ℕ
  task_panic panic = 1
  task_panic (done res) = 0

  -- How many tasks end in an error, and how many panic.
  abbrev pub errors : List (Outcome (TaskResult E)) → ℕ
  errors [] = 0
  errors (task ∷ tasks) = task_error task + errors tasks

  abbrev pub panics : List (Outcome (TaskResult E)) → ℕ
  panics [] = 0
  panics (task ∷ tasks) = task_panic task + panics tasks

-- An error goes before a panic.
abbrev pub verdict : ℕ → ℕ → Verdict
verdict errors panics =
    if errors == 0 then (if panics == 0 then all_ok else panicked) else some_error

module _ {E : Type 0} where
  errors-append :
      (xs ys : List (Outcome (TaskResult E))) → errors (xs ++ ys) ≡ errors xs + errors ys
  errors-append [] ys = omega arith
  errors-append (x ∷ xs) ys = omega (arith, errors-append xs ys)

  panics-append :
      (xs ys : List (Outcome (TaskResult E))) → panics (xs ++ ys) ≡ panics xs + panics ys
  panics-append [] ys = omega arith
  panics-append (x ∷ xs) ys = omega (arith, panics-append xs ys)

  errors_of-append :
      (xs ys : List (TaskResult E)) → errors_of (xs ++ ys) ≡ errors_of xs + errors_of ys
  errors_of-append [] ys = omega arith
  errors_of-append (x ∷ xs) ys = omega (arith, errors_of-append xs ys)

  errors-send_result :
      (task : Outcome (TaskResult E)) (receiver : List (TaskResult E))
      → errors_of (send_result task receiver) ≡ task_error task + errors_of receiver
  unfolding send_result
  errors-send_result panic receiver = omega arith
  errors-send_result (done res) receiver = omega (arith, errors_of-append receiver (res ∷ []))

  -- No error is lost.
  Reached-errors :
      {tasks : List (Outcome (TaskResult E))} {w : AsyncWorker E}
      → Reached tasks w
      → errors_of w.receiver + errors w.running ≡ errors tasks
  unfolding new spawn
  Reached-errors start = refl
  Reached-errors (spawned {w = w} task r) =
      omega (arith, Reached-errors r, errors-append w.running (task ∷ []))
  Reached-errors (ended {w = w} task before after e r) = omega (
    arith,
    Reached-errors r,
    ap errors e,
    errors-append before (task ∷ after),
    errors-append before after,
    errors-send_result task w.receiver,
  )

  length-send_result :
      (task : Outcome (TaskResult E)) (receiver : List (TaskResult E))
      → length (send_result task receiver) + task_panic task ≡ suc (length receiver)
  unfolding send_result
  length-send_result panic receiver = omega arith
  length-send_result (done res) receiver = omega (arith, length-append receiver (res ∷ []))

  -- A task is missing from the channel if it runs or has panicked.
  Reached-count :
      {tasks : List (Outcome (TaskResult E))} {w : AsyncWorker E}
      → Reached tasks w
      → length w.receiver + length w.running + panics tasks ≡ w.count + panics w.running
  unfolding new spawn
  Reached-count start = refl
  Reached-count (spawned {w = w} task r) = omega (
    arith,
    Reached-count r,
    panics-append w.running (task ∷ []),
    length-append w.running (task ∷ []),
  )
  Reached-count (ended {w = w} task before after e r) = omega (
    arith,
    Reached-count r,
    ap panics e,
    ap length e,
    panics-append before (task ∷ after),
    panics-append before after,
    length-append before (task ∷ after),
    length-append before after,
    length-send_result task w.receiver,
  )

  -- With no more results than tasks no `assert!` fails in the loop, and the last one fails if results
  -- are missing.
  receive_all-verdict :
      (count index missing : ℕ) (receiver : List (TaskResult E))
      → index + length receiver + missing ≡ count
      → verdict_of (receive_all count index receiver) ≡ verdict (errors_of receiver) missing
  unfolding receive_all
  receive_all-verdict count index missing [] e = ground (arith, e)
  receive_all-verdict count index missing (ok ∷ rest) e =
      ground (arith, e, receive_all-verdict count (suc index) missing rest (omega (arith, e)))
  receive_all-verdict count index missing (err error ∷ rest) e = ground (arith, e)

  -- Whichever tasks are spawned and in whatever order they end, once all have ended `execute` answers
  -- an error if a task ended in one, panics if none did but a task panicked, and is fine if all went
  -- well.
  pub execute-verdict :
      {tasks : List (Outcome (TaskResult E))} {w : AsyncWorker E}
      → Reached tasks w
      → w.running ≡ []
      → verdict_of (execute w) ≡ verdict (errors tasks) (panics tasks)
  unfolding execute
  execute-verdict {tasks} {w} r e =
      receive_all-verdict w.count 0 (panics tasks) w.receiver
        (omega (arith, Reached-count r, ap length e, ap panics e))
      ∙ ap (λ n. verdict n (panics tasks)) (omega (arith, Reached-errors r, ap errors e))
