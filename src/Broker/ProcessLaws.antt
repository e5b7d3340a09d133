-- ===== src/Broker/ProcessLaws.antt =====
-- What one message does: src/workers/notif/mod.rs, the task that a consumer spawns or runs.
use mathlib.Core.List.{append-nil}
use hoopoe.Base.{
  ℕ, Text, [], ◌∷◌, ◌++◌, Bool, true, false, ◌&&◌, ◌||◌, none, some, if◌then◌else◌, is_some, ◌≡◌,
  refl, ◌==◌, arith, done,
}
use hoopoe.Models.{NotifData, SecureCellConfig, codec_error_code}
use hoopoe.Errors
use hoopoe.Errors.{new_error}
use hoopoe.Service.{Services}
use hoopoe.Broker.{World, Env, record_errors, default_config}
use hoopoe.Broker.Cache.{cache_event}
use hoopoe.Broker.CacheLaws.{events_of, read_events_lem}
use hoopoe.Broker.Process.{final_data, send_to_ws, handle_event, process}

module _ (V : Services) where
  -- The cache step touches neither the channel nor the mailbox.
  pub cache_event_keeps :
      (exp : ℕ) (pool : Bool) (event : NotifData) (w : World V.Store)
      → ((cache_event V exp pool event w).0.ws ≡ w.ws)
        × ((cache_event V exp pool event w).0.mailbox ≡ w.mailbox)
  unfolding cache_event
  cache_event_keeps exp pool event w = ground arith

  pub cache_event-completes :
      (exp : ℕ) (pool : Bool) (event : NotifData) (w : World V.Store)
      → (cache_event V exp pool event w).1
        ≡ ((exp == 0) || (pool && is_some (events_of V w.store event.receiver_info)))
  unfolding cache_event
  cache_event-completes exp pool event w = ground (arith, read_events_lem V w.store event)

  module _ (exp : ℕ) (store_in_db : Bool) (env : Env) (text : Text) (event : NotifData)
      (w : World V.Store) where
    -- The websocket channel gets the text whenever it is open, whatever comes later.
    pub ws-handle_event :
        (handle_event V exp store_in_db env text event w).0.ws
        ≡ (if env.ws_open then w.ws ++ text ∷ [] else w.ws)
    unfolding handle_event
    ws-handle_event =
        ground (arith, cache_event_keeps exp env.pool_ok event (send_to_ws V env.ws_open text w))

    -- The mutator actor gets the notification exactly if the cache step did not return early, the
    -- consumer stores and the actor takes messages. The cache step goes on if it is switched off,
    -- or has a connection and can read the receiver's list.
    pub mailbox-handle_event : (handle_event V exp store_in_db env text event w).0.mailbox ≡ (
        if ((exp == 0) || (env.pool_ok && is_some (events_of V w.store event.receiver_info)))
          && (store_in_db && env.mutator_up)
        then w.mailbox ++ event ∷ []
        else w.mailbox)
    unfolding handle_event
    mailbox-handle_event = ground (
      arith,
      cache_event_keeps exp env.pool_ok event (send_to_ws V env.ws_open text w),
      cache_event-completes exp env.pool_ok event (send_to_ws V env.ws_open text w),
    )

  record_errors-nil : (w : World V.Store) → record_errors [] w ≡ w
  unfolding record_errors
  record_errors-nil w = rw append-nil

  -- How the text that the consumer reads was decided: as sent, if it has no keys.
  pub process_of_final :
      (exp : ℕ) (store_in_db : Bool) (config : SecureCellConfig) (env : Env) (payload : Text)
      (w : World V.Store) (text : Text) (event : NotifData)
      → final_data V config payload ≡ done (text, [])
      → V.decode_notif text ≡ some event
      → process V exp store_in_db config env payload w
        ≡ done (handle_event V exp store_in_db env text event w)
  unfolding process
  process_of_final exp store_in_db config env payload w text event f d =
      ground (arith, f, d, record_errors-nil w)

  pub process_undecodable :
      (exp : ℕ) (store_in_db : Bool) (config : SecureCellConfig) (env : Env) (payload : Text)
      (w : World V.Store) (text : Text)
      → final_data V config payload ≡ done (text, [])
      → V.decode_notif text ≡ none
      → process V exp store_in_db config env payload w
        ≡ done
            (record_errors (new_error codec_error_code Errors.Site.decode_serde true ∷ []) w, false)
  unfolding process
  process_undecodable exp store_in_db config env payload w text f d =
      ground (arith, f, d, record_errors-nil w)

  pub final_data_plain : (payload : Text) → final_data V default_config payload ≡ done (payload, [])
  unfolding final_data
  final_data_plain payload = refl
