-- ===== src/Hoop/CronLaws.antt =====
-- How often the tasks of the scheduler of src/workers/scheduler/mod.rs run.
use hoopoe.Base.{ℕ, zero, suc, ◌+◌, ◌≡◌, arith, ap}
use hoopoe.Hoop.Laws.{run_interval_never_stops}
use hoopoe.Hoop.Cron.{run_interval1, start_cron_scheduler}

run_interval1_lem : (ticks ran : ℕ) → run_interval1 ticks ran ≡ ran + ticks
unfolding run_interval1
run_interval1_lem zero ran = omega arith
run_interval1_lem (suc ticks) ran = omega (arith, run_interval1_lem ticks (suc ran))

-- In every tick the scheduler spawns its task, and the task beside it runs as well, its ten retries
-- notwithstanding.
pub start_cron_scheduler_lem :
    (ticks : ℕ)
    → ((start_cron_scheduler ticks).spawned ≡ ticks)
      × ((start_cron_scheduler ticks).beside.ran ≡ ticks)
unfolding start_cron_scheduler
start_cron_scheduler_lem ticks =
    (omega (arith, run_interval1_lem ticks 0), ap (λ i. i.ran) (run_interval_never_stops 10 ticks))
