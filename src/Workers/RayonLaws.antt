-- ===== src/Workers/RayonLaws.antt =====
-- `RayonSyncWorker` of src/workers/actor.rs runs every job.
use mathlib.Core.List.{append_assoc, append-nil}
use hoopoe.Base.{
  ℕ, suc, ◌+◌, List, [], ◌∷◌, ◌++◌, done, ◌≡◌, refl, arith, ap, if◌then◌else◌, ◌==◌, length,
  length-append,
}
use hoopoe.Workers.Rayon.{
  RayonSyncWorker, new, spawn, run_jobs, execute, Reached, start, spawned, sent,
}

-- How often a job is in a list.
abbrev pub times : ℕ → List ℕ → ℕ
times job [] = 0
times job (other ∷ jobs) = (if other == job then 1 else 0) + times job jobs

times-append : (job : ℕ) (xs ys : List ℕ) → times job (xs ++ ys) ≡ times job xs + times job ys
times-append job [] ys = omega arith
times-append job (x ∷ xs) ys = omega (arith, times-append job xs ys)

Reached-times :
    (j : ℕ) {jobs : List ℕ} {w : RayonSyncWorker}
    → Reached jobs w
    → times j w.receiver + times j w.fired ≡ times j jobs
unfolding new spawn
Reached-times j start = refl
Reached-times j (spawned {w = w} job r) =
    omega (arith, Reached-times j r, times-append j w.fired (job ∷ []))
Reached-times j (sent {w = w} job before after e r) = omega (
  arith,
  Reached-times j r,
  ap (times j) e,
  times-append j before (job ∷ after),
  times-append j before after,
  times-append j w.receiver (job ∷ []),
)

Reached-count :
    {jobs : List ℕ} {w : RayonSyncWorker}
    → Reached jobs w
    → length w.receiver + length w.fired ≡ w.count
unfolding new spawn
Reached-count start = refl
Reached-count (spawned {w = w} job r) =
    omega (arith, Reached-count r, length-append w.fired (job ∷ []))
Reached-count (sent {w = w} job before after e r) = omega (
  arith,
  Reached-count r,
  ap length e,
  length-append before (job ∷ after),
  length-append before after,
  length-append w.receiver (job ∷ []),
)

run_jobs-all :
    (count index : ℕ) (executed receiver : List ℕ)
    → index + length receiver ≡ count
    → run_jobs count index executed receiver ≡ done (executed ++ receiver)
unfolding run_jobs
run_jobs-all count index executed [] e = rw (append-nil executed) (ground (arith, e))
run_jobs-all count index executed (job ∷ rest) e = ground (
  arith,
  e,
  run_jobs-all count (suc index) (executed ++ job ∷ []) rest (omega (arith, e)),
  append_assoc executed (job ∷ []) rest,
)

-- Whichever jobs are spawned and in whatever order rayon sends them, once all are sent `execute` runs
-- each job as often as it was spawned, in the order in which they were sent.
pub execute-times :
    {jobs : List ℕ} {w : RayonSyncWorker} (j : ℕ)
    → Reached jobs w
    → w.fired ≡ []
    → (execute w ≡ done w.receiver) × (times j w.receiver ≡ times j jobs)
unfolding execute
execute-times {w = w} j r e = (
  run_jobs-all w.count 0 [] w.receiver (omega (arith, Reached-count r, ap length e)),
  omega (arith, Reached-times j r, ap (times j) e),
)
