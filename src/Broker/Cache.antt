-- ===== src/Broker/Cache.antt =====
-- The cache step of the three consumers: read the receiver's list, append, write it back.
use hoopoe.Base.{ℕ, List, [], ◌∷◌, ◌++◌, Bool, true, false, Option, none, some, if◌then◌else◌, ◌==◌}
use mathlib.Core.Option
use hoopoe.Models.{NotifData, storage_io_error_code, codec_error_code}
use hoopoe.Errors
use hoopoe.Errors.{new_error}
use hoopoe.Service.{Services}
use hoopoe.Broker.{World, record_errors, notif_owner_key}

module _ (V : Services) where
  -- No value yet starts a list; `none` is a value that is no list of notifications.
  unfoldable pub read_events : V.Store → NotifData → Option (List NotifData)
  read_events s event = elim (V.get s (notif_owner_key event.receiver_info)) [
    | none ↦ some (event ∷ [])
    | some raw ↦ Option.map (λ messages. messages ++ event ∷ []) (V.decode_events raw)
  ]

  -- The spawned write; a refused `set_ex` panics in its own task.
  unfoldable pub write_events : V.Store → NotifData → List NotifData → ℕ → V.Store
  write_events s event events exp =
      let key = notif_owner_key event.receiver_info in
      let text = V.encode_events events in
      if V.exists s key
      then V.set s key text
      else (elim (V.set_ex s key text exp) [ none ↦ s | some t ↦ t ])

  -- The flag is false where the code returns.
  unfoldable pub cache_event : ℕ → Bool → NotifData → World V.Store → World V.Store × Bool
  unfolding read_events write_events record_errors new_error
  cache_event exp pool_ok event w =
      if exp == 0
      then (w, true)
      else if pool_ok
      then (elim (read_events w.store event) [
        | none ↦ (
          record_errors (new_error codec_error_code Errors.Site.decode_serde_redis true ∷ []) w,
          false,
        )
        | some events ↦ (record w { store = write_events w.store event events exp }, true)
      ])
      else (
        record_errors (new_error storage_io_error_code Errors.Site.redis_pool true ∷ []) w,
        false,
      )
