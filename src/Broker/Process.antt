-- ===== src/Broker/Process.antt =====
-- What the three consumers do with the text of one message.
use hoopoe.Base.{
  ℕ, Text, List, [], ◌∷◌, ◌++◌, Bool, true, false, not, ◌&&◌, Option, none, some, Outcome, ◌>>=◌,
  done, unwrap, if◌then◌else◌, is_empty, text_eq,
}
use hoopoe.Models.{NotifData, SecureCellConfig, codec_error_code, mailbox_channel_error_code}
use hoopoe.Errors
use hoopoe.Errors.{HoopoeErrorResponse, new_error}
use hoopoe.Service.{Services}
use hoopoe.Crypter.{decrypt}
use hoopoe.Broker.{World, Env, Kind, config_key, record_errors}
use hoopoe.Broker.Cache.{cache_event}

module _ (V : Services) where
  -- Whether the configuration that the producer left, if there is one, is the consumer's.
  unfoldable pub check_channel : Kind → V.Store → SecureCellConfig → Text → Outcome Bool
  check_channel kind s config unique_key =
      let key = config_key kind unique_key in
      if V.exists s key
      then (do
        raw ← unwrap (V.get s key)
        stored ← unwrap (V.decode_config raw)
        done (
            text_eq stored.passphrase config.passphrase
            && text_eq stored.secret_key config.secret_key))
      else done true

  unfoldable pub final_data : SecureCellConfig → Text → Outcome (Text × List HoopoeErrorResponse)
  final_data config payload =
      if not (is_empty config.secret_key) && not (is_empty config.passphrase)
      then (do (text, config', errors) ← decrypt V payload config; done (text, errors))
      else done (payload, [])

  unfoldable pub send_to_ws : Bool → Text → World V.Store → World V.Store
  send_to_ws open? text w = if open? then record w { ws = w.ws ++ text ∷ [] } else w

  unfoldable pub send_to_mutator : Bool → NotifData → World V.Store → World V.Store
  unfolding record_errors new_error
  send_to_mutator up event w =
      if up
      then record w { mailbox = w.mailbox ++ event ∷ [] }
      else record_errors
          (new_error mailbox_channel_error_code Errors.Site.notif_mutator_send true ∷ []) w

  store_event : Bool → Bool → NotifData → World V.Store × Bool → World V.Store × Bool
  unfolding send_to_mutator
  store_event store_in_db up event (w, false) = (w, false)
  store_event store_in_db up event (w, true) =
      (if store_in_db then send_to_mutator up event w else w, true)

  unfoldable pub handle_event :
      ℕ → Bool → Env → Text → NotifData → World V.Store → World V.Store × Bool
  unfolding send_to_ws store_event
  handle_event exp store_in_db env text event w =
      store_event store_in_db env.mutator_up event
        (cache_event V exp env.pool_ok event (send_to_ws env.ws_open text w))

  unfoldable pub handle_decoded :
      ℕ → Bool → Env → Text → Option NotifData → World V.Store → World V.Store × Bool
  unfolding record_errors new_error
  handle_decoded exp store_in_db env text none w =
      (record_errors (new_error codec_error_code Errors.Site.decode_serde true ∷ []) w, false)
  handle_decoded exp store_in_db env text (some event) w =
      handle_event exp store_in_db env text event w

  -- The flag tells whether the task ran to its end; it is false where the code returns early.
  unfoldable pub process :
      ℕ → Bool → SecureCellConfig → Env → Text → World V.Store → Outcome (World V.Store × Bool)
  unfolding record_errors handle_decoded
  process exp store_in_db config env payload w = do
    (text, errors) ← final_data config payload
    done (handle_decoded exp store_in_db env text (V.decode_notif text) (record_errors errors w))

  -- The consumers of Redis and Kafka always store.
  unfoldable pub process_redis :
      ℕ → SecureCellConfig → Env → Text → World V.Store → Outcome (World V.Store × Bool)
  unfolding process
  process_redis exp = process exp true

  unfoldable pub process_kafka :
      ℕ → SecureCellConfig → Env → Text → World V.Store → Outcome (World V.Store × Bool)
  unfolding process
  process_kafka exp = process exp true
