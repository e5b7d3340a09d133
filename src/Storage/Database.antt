-- ===== src/Storage/Database.antt =====
-- src/storage/cruft.rs: `Timestamp` and the engine `Database` over the buffer of events. The loop of
-- `execute_me` is counted in rounds, and so are those of `try_connect` and `check_health`.
use hoopoe.Base.{
  ℕ, zero, suc, ◌+◌, ◌-◌, ◌*◌, Text, List, [], ◌∷◌, Bool, true, false, Option, none, some, Outcome,
  done, panic, if◌then◌else◌, ltb, ◌==◌,
}
use hoopoe.Storage.Buffer.{Buffer, new_buffer, push, take}

-- In nanoseconds since the epoch.
abbrev pub Timestamp : Type 0
Timestamp = ℕ

abbrev pub day : ℕ
day = 86400 * 1000000000

-- The receiver is not read, but the clock; a duration that would be negative panics.
unfoldable pub before24h : (now : Timestamp) → Timestamp → Outcome Timestamp
before24h now t = if ltb now day then panic else done (now - day)

pub record Event : Type 0 where
  pub id : Text
  pub data_text : Text
  pub time : Timestamp

unfoldable pub new_event : Text → Timestamp → Text → Event
new_event id now data_text = record { id = id; data_text = data_text; time = now }

pub record Database : Type 0 where
  pub state : ℕ
  pub event_buf : Buffer Event
  pub saved : List Event

unfoldable pub new_database : Database
unfolding new_buffer
new_database = record { state = 0; event_buf = new_buffer 1024; saved = [] }

unfoldable pub halt_engine : Database → Database
halt_engine d = record d { state = 1 }

-- The future of `save_events` would panic at its `todo!()` if it were polled.
abbrev pub Future : Type 0
Future = Database → Outcome Database

unfoldable pub save_events : List Event → Future
save_events events d = panic

-- A future that is not awaited does nothing.
unfoldable pub drop_future : Future → Database → Database
drop_future future d = d

unfoldable pub save_round : Database → Database
unfolding take save_events drop_future
save_round d = drop_future (save_events (take d.event_buf)) d

unfoldable pub execute_me : ℕ → Database → Database
unfolding save_round
execute_me zero d = d
execute_me (suc rounds) d = execute_me rounds (save_round d)

-- The answer of `try_connect`, if it comes within a number of rounds: the clock and the state are
-- read once, before the loop.
unfoldable pub connect_loop : ℕ → (in_time : Bool) → ℕ → Option (Option Database)
unfolding new_database
connect_loop zero in_time state = none
connect_loop (suc rounds) in_time state =
    let later = connect_loop rounds in_time state in
    if in_time then (if state == 0 then some (some new_database) else later) else some none

unfoldable pub try_connect : ℕ → (timeout : ℕ) → Timestamp → Database → Option (Option Database)
unfolding connect_loop
try_connect rounds timeout now d = connect_loop rounds (ltb now (now + timeout)) d.state

-- The lines that `check_health` logs in a number of ticks: that the engine is alive, or dead.
unfoldable pub health_ticks : ℕ → (state : ℕ) → List Bool
health_ticks zero state = []
health_ticks (suc ticks) state =
    let later = health_ticks ticks state in if state == 0 then true ∷ later else false ∷ []

unfoldable pub check_health : ℕ → Database → List Bool
unfolding health_ticks
check_health ticks d = health_ticks ticks d.state

-- What may happen to an engine that runs: an event for its buffer, a round of the worker, a halt.
pub data Happening : Type 0 where
  pushed : Event → Happening
  round : Happening
  halted : Happening

abbrev stored : Option (Buffer Event) → Database → Database
stored none d = d
stored (some b) d = record d { event_buf = b }

unfoldable pub happen : Happening → Database → Database
unfolding push save_round halt_engine
happen (pushed e) d = stored (push d.event_buf e) d
happen round d = save_round d
happen halted d = halt_engine d

unfoldable pub run_engine : List Happening → Database → Database
unfolding happen
run_engine [] d = d
run_engine (h ∷ hs) d = run_engine hs (happen h d)
