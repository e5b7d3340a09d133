-- ===== src/Hoop/Laws.antt =====
-- What becomes of a hoop's end: the key that add_hoop sets, and what its expiry does.
use mathlib.Core.List.{append-nil, append_assoc}
use hoopoe.Base.{
  ℕ, zero, suc, ◌+◌, ◌-◌, ◌*◌, ◌<◌, ◌≤◌, ◌^◌, Text, codes, List, [], ◌∷◌, ◌++◌, Bool, true, false,
  none, some, if◌then◌else◌, text_eq, text_eq_refl, ℤ, ltb_ℤ, parse_i64, as_u64, done, panic, ◌>>=◌,
  ◌==◌, ◌≡◌, refl, arith, no_sep, split-first, split-no_sep, starts_with,
}
use hoopoe.Models.{reject, not_acceptable_status, invalid_end_time}
use hoopoe.Service.{Services}
use hoopoe.Service.RedisLaws.{set_ex-some}
use hoopoe.Hoop.Add.{HoopEventForm, FormApi, hoop_key, seconds_between, ensure, add_hoop}
use hoopoe.Hoop.Schedule.{
  hoop_title, HoopRow, finish_hoop, Subscription, on_expired, drop_answer,
  subscribe_to_redis_exp_channel, interval_round, run_interval, handle_update_is_finished,
}

-- The key's first two pieces.
title_read :
    (title started_at : Text)
    → no_sep b'_' title ≡ true
    → hoop_title (hoop_key title started_at) ≡ done title
unfolding hoop_title hoop_key starts_with
title_read title started_at plain =
    rw
      (
        split-first b'_' (codes "hoop") (title ++ (codes "_at_" ++ started_at)) refl,
        split-first b'_' title (codes "at_" ++ started_at) plain,
      )
      refl

title_cut :
    (title more started_at : Text)
    → no_sep b'_' title ≡ true
    → hoop_title (hoop_key (title ++ b'_' ∷ more) started_at) ≡ done title
unfolding hoop_title hoop_key starts_with
title_cut title more started_at plain =
    rw
      (
        append_assoc title (b'_' ∷ more) (codes "_at_" ++ started_at),
        split-first b'_' (codes "hoop") (title ++ (b'_' ∷ more ++ (codes "_at_" ++ started_at)))
            refl,
        split-first b'_' title (more ++ (codes "_at_" ++ started_at)) plain,
      )
      refl

-- The title that the scheduler reads off a hoop's key is the hoop's title if that has no
-- underscore; of a title with an underscore it is what stands before the first one.
pub hoop_title-hoop_key :
    (title more started_at : Text)
    → no_sep b'_' title ≡ true
    → (hoop_title (hoop_key title started_at) ≡ done title)
      × (hoop_title (hoop_key (title ++ b'_' ∷ more) started_at) ≡ done title)
hoop_title-hoop_key title more started_at plain =
    (title_read title started_at plain, title_cut title more started_at plain)

-- A form that the handler can read.
pub record IsReadable (F : FormApi) (hoop_info : HoopEventForm) (start end_time : ℤ) (end_day : ℕ)
    : Type 0 where
  pub cover : hoop_info.has_cover ≡ true
  pub invited : F.reads_invitations hoop_info.invitations ≡ true
  pub starts : parse_i64 hoop_info.started_at ≡ some start
  pub ends : parse_i64 hoop_info.end_at ≡ some end_time
  pub day : F.day_of end_time ≡ some end_day

module _ (V : Services) (F : FormApi) (hoop_info : HoopEventForm) (start end_time : ℤ) (end_day : ℕ)
    (readable : IsReadable F hoop_info start end_time end_day) (s : V.Store) where
  abbrev key : Text
  key = hoop_key hoop_info.title hoop_info.started_at

  -- A hoop that ends on a later day gets a key with an empty value, which expires after the seconds
  -- between the two days; the other keys stay. A hoop that ends before it starts is answered with
  -- status 406, and gets its key all the same.
  pub add_hoop_later :
      (today : ℕ) (other : Text)
      → today < end_day
      → 86400 * (end_day - today) < 2 ^ 31
      → (t : V.Store) × (add_hoop V F hoop_info today s
          ≡ done (
            t,
            if ltb_ℤ end_time start
                then some (reject not_acceptable_status invalid_end_time)
                else none,
          ))
        × (V.ttl t key ≡ some (86400 * (end_day - today)))
        × (V.get t other ≡ (if text_eq key other then some [] else V.get s other))
  unfolding add_hoop seconds_between ensure as_u64
  add_hoop_later today other later small =
      let n = 86400 * (end_day - today) in
      let (t, e) = set_ex-some V s key [] n (omega (arith, later)) small in
      (
        t,
        ground (
          arith, readable.cover, readable.invited, readable.starts, readable.ends, readable.day,
          later, small, e,
        ),
        ground (arith, V.ttl-set_ex s t key [] n key e, text_eq_refl key),
        V.get-set_ex s t key [] n other e,
      )

  -- A hoop that ends today or has ended on an earlier day makes the handler panic: Redis refuses
  -- the expiry that the difference turns into.
  pub add_hoop_not_later_panics :
      (today : ℕ)
      → end_day ≤ today
      → 86400 * today < 2 ^ 63
      → add_hoop V F hoop_info today s ≡ panic
  unfolding add_hoop seconds_between ensure as_u64
  add_hoop_not_later_panics today past small =
      let n = as_u64 (seconds_between today end_day) in
      ground (
        arith,
        readable.cover,
        readable.invited,
        readable.starts,
        readable.ends,
        readable.day,
        past,
        small,
        V.set_ex_refuses_zero s key [],
        V.set_ex_refuses_large s key [] n,
      )

-- The keys of hoops, each given by its title and its start.
abbrev pub hoop_keys : List (Text × Text) → List Text
hoop_keys [] = []
hoop_keys ((title, started_at) ∷ rest) = hoop_key title started_at ∷ hoop_keys rest

abbrev pub titles : List (Text × Text) → List Text
titles [] = []
titles ((title, started_at) ∷ rest) = title ∷ titles rest

abbrev pub ArePlain : List (Text × Text) → Type 0
ArePlain [] = Unit
ArePlain ((title, started_at) ∷ rest) = (no_sep b'_' title ≡ true) × ArePlain rest

-- When the keys of hoops whose titles have no underscore expire, the subscription sends the mutator
-- actor each title, in order, and goes on listening; but no row of the table of hoops changes, for
-- the future that would mark one as finished is dropped.
pub expired_hoops_stay_unfinished :
    (like : Text → Text → Bool) (hoops : List (Text × Text)) (s : Subscription)
    → ArePlain hoops
    → s.listening ≡ true
    → subscribe_to_redis_exp_channel like (hoop_keys hoops) s
      ≡ record { db = s.db; sent = s.sent ++ titles hoops; listening = true }
unfolding subscribe_to_redis_exp_channel on_expired drop_answer
expired_hoops_stay_unfinished like [] s p up = ground (arith, append-nil s.sent)
expired_hoops_stay_unfinished like ((title, started_at) ∷ rest) s p up = ground (
  arith,
  (hoop_title-hoop_key title [] started_at p.0).0,
  up,
  append_assoc s.sent (title ∷ []) (titles rest),
  expired_hoops_stay_unfinished like rest (on_expired like (hoop_key title started_at) s) p.1,
)

hoop_title-bare :
    (expired : Text)
    → starts_with expired (codes "hoop") ≡ true
    → no_sep b'_' expired ≡ true
    → hoop_title expired ≡ panic
unfolding hoop_title
hoop_title-bare expired h plain = rw (h, split-no_sep b'_' expired plain) refl

subscription_over :
    (like : Text → Text → Bool) (keys : List Text) (s : Subscription)
    → s.listening ≡ false
    → subscribe_to_redis_exp_channel like keys s ≡ s
unfolding subscribe_to_redis_exp_channel
subscription_over like [] s over = refl
subscription_over like (k ∷ keys) s over = ground (arith, over)

-- A key that begins with "hoop" and has no underscore ends the subscription: no key after it is
-- looked at.
pub bare_key_ends_subscription :
    (like : Text → Text → Bool) (expired : Text) (keys : List Text) (s : Subscription)
    → starts_with expired (codes "hoop") ≡ true
    → no_sep b'_' expired ≡ true
    → s.listening ≡ true
    → subscribe_to_redis_exp_channel like (expired ∷ keys) s ≡ record s { listening = false }
unfolding subscribe_to_redis_exp_channel on_expired
bare_key_ends_subscription like expired keys s h plain up = ground (
  arith,
  hoop_title-bare expired h plain,
  subscription_over like keys (record s { listening = false }) refl,
)

-- The update that the mutator actor's answer holds: with the title of a key that is no hoop's, it
-- marks the first hoop of the table as finished, where the database's pattern of the empty text
-- matches every title.
pub foreign_key_would_finish_first_hoop :
    (like : Text → Text → Bool) (expired : Text) (row : HoopRow) (rows : List HoopRow)
    → starts_with expired (codes "hoop") ≡ false
    → like row.title [] ≡ true
    → (hoop_title expired >>= λ title. handle_update_is_finished like title (row ∷ rows))
      ≡ done (record row { is_finished = true } ∷ rows)
unfolding hoop_title handle_update_is_finished finish_hoop
foreign_key_would_finish_first_hoop like expired row rows h m = ground (arith, h, m)

run_interval_from :
    (retries rounds n : ℕ)
    → run_interval retries rounds (record { ran = n; attempts = 0; looping = true })
      ≡ record { ran = if retries == 0 then n else n + rounds; attempts = 0; looping = true }
unfolding run_interval interval_round
run_interval_from retries zero n = ground arith
run_interval_from retries (suc rounds) n =
    ground (arith, run_interval_from retries rounds n, run_interval_from retries rounds (suc n))

-- A task with retries runs in every round and never stops; one without never runs.
pub run_interval_never_stops :
    (retries rounds : ℕ)
    → run_interval retries rounds (record { ran = 0; attempts = 0; looping = true })
      ≡ record { ran = if retries == 0 then 0 else rounds; attempts = 0; looping = true }
run_interval_never_stops retries rounds = ground (arith, run_interval_from retries rounds 0)
