-- ===== src/Hoop/Cron.antt =====
-- src/workers/scheduler/mod.rs: the other tasks of the scheduler, counted in ticks of the interval.
use hoopoe.Base.{ℕ, zero, suc, true}
use hoopoe.Hoop.Schedule.{Interval, run_interval}

-- How often the task of `runInterval1` has run.
unfoldable pub run_interval1 : (ticks : ℕ) → ℕ → ℕ
run_interval1 zero ran = ran
run_interval1 (suc ticks) ran = run_interval1 ticks (suc ran)

-- `startCronScheduler`: how often its task was spawned, and the task of `runInterval` beside it.
pub record Cron : Type 0 where
  pub spawned : ℕ
  pub beside : Interval

unfoldable pub start_cron_scheduler : (ticks : ℕ) → Cron
unfolding run_interval1
start_cron_scheduler ticks = record {
  spawned = run_interval1 ticks 0;
  beside = run_interval 10 ticks (record { ran = 0; attempts = 0; looping = true });
}

pub record CronScheduler : Type 0 where
  pub state : ℕ

unfoldable pub new_scheduler : CronScheduler
new_scheduler = record { state = 0 }

unfoldable pub handle_update_state : (new_val : ℕ) → CronScheduler → CronScheduler
handle_update_state new_val s = record s { state = new_val }
