-- ===== src/Hoop/Schedule.antt =====
-- src/workers/scheduler/mod.rs, `subscribeToRedisExpChannel` and `runInterval`, and the handler of
-- `UpdateIsFinished` in src/workers/cqrs/mutators/hoop.rs.
use hoopoe.Base.{
  ℕ, zero, suc, Text, codes, List, [], ◌∷◌, ◌++◌, Bool, true, false, Option, none, some,
  if◌then◌else◌, leb, ◌==◌, Outcome, done, panic, ◌>>=◌, unwrap, split, starts_with,
}

abbrev second_piece : List Text → Option Text
second_piece (a ∷ b ∷ rest) = some b
second_piece _ = none

-- The title that an expired key stands for.
unfoldable pub hoop_title : Text → Outcome Text
hoop_title expired_key =
    if starts_with expired_key (codes "hoop")
    then unwrap (second_piece (split b'_' expired_key))
    else done []

pub record HoopRow : Type 0 where
  pub title : Text
  pub is_finished : Bool

-- The first row that matches, in the order in which the database gives them, is set; a query that
-- finds none panics. `like` is the database's `title LIKE '%…%'`.
unfoldable pub finish_hoop : (Text → Text → Bool) → Text → List HoopRow → Outcome (List HoopRow)
finish_hoop like title [] = panic
finish_hoop like title (row ∷ rows) =
    let rest = finish_hoop like title rows in
    if like row.title title
    then done (record row { is_finished = true } ∷ rows)
    else (rest >>= λ later. done (row ∷ later))

-- The handler answers with a future, which updates the table when it is polled.
abbrev pub ResponseHoopData : Type 0
ResponseHoopData = List HoopRow → Outcome (List HoopRow)

unfoldable pub handle_update_is_finished : (Text → Text → Bool) → Text → ResponseHoopData
unfolding finish_hoop
handle_update_is_finished like title db = finish_hoop like title db

-- The subscription: the table, the titles sent to the mutator actor, and whether it still listens.
pub record Subscription : Type 0 where
  pub db : List HoopRow
  pub sent : List Text
  pub listening : Bool

-- The actor's answer, a future, is dropped where it arrives.
unfoldable pub drop_answer : ResponseHoopData → Subscription → Subscription
drop_answer answer s = s

unfoldable pub on_expired : (Text → Text → Bool) → Text → Subscription → Subscription
unfolding drop_answer
on_expired like expired_key s = elim (hoop_title expired_key) [
  | panic ↦ record s { listening = false }
  | done title ↦
      drop_answer (handle_update_is_finished like title) (record s { sent = s.sent ++ title ∷ [] })
]

unfoldable pub subscribe_to_redis_exp_channel :
    (Text → Text → Bool) → List Text → Subscription → Subscription
unfolding on_expired
subscribe_to_redis_exp_channel like [] s = s
subscribe_to_redis_exp_channel like (key ∷ keys) s =
    let next = subscribe_to_redis_exp_channel like keys (on_expired like key s) in
    if s.listening then next else s

-- The loop of `runInterval`: how often the task ran, `attempts`, and whether the loop goes on.
pub record Interval : Type 0 where
  pub ran : ℕ
  pub attempts : ℕ
  pub looping : Bool

unfoldable pub interval_round : ℕ → Interval → Interval
interval_round retries i =
    if retries == 0
    then i
    else if leb retries i.attempts
    then record i { looping = false }
    else record i { ran = suc i.ran }

-- A number of rounds.
unfoldable pub run_interval : ℕ → ℕ → Interval → Interval
unfolding interval_round
run_interval retries zero i = i
run_interval retries (suc rounds) i =
    let next = run_interval retries rounds (interval_round retries i) in
    if i.looping then next else i
