-- ===== src/Broker/Delivery.antt =====
-- Delivery by the loops of src/workers/notif/mod.rs: what a message that is no notification does,
-- and how much a run can deliver.
use hoopoe.Base.{
  ℕ, suc, ◌+◌, ◌≤◌, Text, List, [], ◌∷◌, Bool, true, Option, none, some, ◌≡◌, refl, arith, inl, inr,
  Option-cases, done, panic, Outcome, is_utf8, length, length-append,
}
use hoopoe.Models.{NotifData, SecureCellConfig, codec_error_code}
use hoopoe.Errors
use hoopoe.Errors.{HoopoeErrorResponse, new_error}
use hoopoe.Service.{Services}
use hoopoe.Broker.{World, Env, Kind, rmq, kafka, config_key, record_errors}
use hoopoe.Broker.Process.{check_channel, process, process_kafka, final_data, handle_decoded}
use hoopoe.Broker.ProcessLaws.{process_undecodable, ws-handle_event, mailbox-handle_event}
use hoopoe.Broker.Consume.{
  running, returned, Run, Message, loop, checked, spawned, rmq_step, kafka_step, rmq_round,
  kafka_round,
}

module _ (V : Services) where
  pub check_channel_absent :
      (kind : Kind) (s : V.Store) (config : SecureCellConfig) (unique_key : Text)
      → V.get s (config_key kind unique_key) ≡ none
      → check_channel V kind s config unique_key ≡ done true
  unfolding check_channel
  check_channel_absent kind s config unique_key e =
      ground (arith, e, V.exists-get s (config_key kind unique_key))

  -- A message whose text is no notification, on a channel that passes the check, leaves one codec
  -- error. The consumer of RMQ acknowledges it and goes on. That of Kafka ends without a commit of its
  -- own, and the client commits the offset all the same as it is closed.
  pub undecodable_message :
      (exp : ℕ) (store_in_db : Bool) (config : SecureCellConfig) (unique_key : Text) (m : Message)
      (r : Run V.Store) (bytes text : Text)
      → m.body ≡ some bytes
      → m.conn_ok ≡ true
      → m.ack_ok ≡ true
      → is_utf8 bytes ≡ true
      → check_channel V rmq r.world.store config unique_key ≡ done true
      → check_channel V kafka r.world.store config unique_key ≡ done true
      → final_data V config bytes ≡ done (text, [])
      → V.decode_notif text ≡ none
      → r.status ≡ running
      → let w =
          record_errors (new_error codec_error_code Errors.Site.decode_serde true ∷ []) r.world in
        (rmq_step V exp store_in_db (config, unique_key) m r
          ≡ record r { world = w; acks = suc r.acks; status = running })
        × (kafka_step V exp (config, unique_key) m r ≡ record {
          world = w;
          acks = r.acks;
          received = suc r.received;
          committed = suc r.received;
          status = returned;
        })
  unfolding rmq_step rmq_round kafka_step kafka_round checked process_kafka
  undecodable_message exp store_in_db config unique_key m r bytes text b c a u safe safe' f d up = (
    ground (arith, process_undecodable V exp store_in_db config m.env bytes r.world text f d),
    ground (arith, process_undecodable V exp true config m.env bytes r.world text f d),
  )

  -- At most one more entry in the websocket channel and in the mailbox.
  abbrev Grows : World V.Store → World V.Store → Type 0
  Grows w w' = (length w'.ws ≤ length w.ws + 1) × (length w'.mailbox ≤ length w.mailbox + 1)

  handle_decoded-Grows :
      (exp : ℕ) (store_in_db : Bool) (env : Env) (text : Text) (d : Option NotifData)
      (w : World V.Store)
      → Grows w (handle_decoded V exp store_in_db env text d w).0
  unfolding handle_decoded
  handle_decoded-Grows exp store_in_db env text none w = ground arith
  handle_decoded-Grows exp store_in_db env text (some event) w = ground (
    arith,
    ws-handle_event V exp store_in_db env text event w,
    mailbox-handle_event V exp store_in_db env text event w,
    length-append w.ws (text ∷ []),
    length-append w.mailbox (event ∷ []),
  )

  spawned-Grows :
      (exp : ℕ) (store_in_db : Bool) (config : SecureCellConfig) (env : Env) (payload : Text)
      (w : World V.Store)
      → Grows w (spawned V (process V exp store_in_db config env payload w) w)
  unfolding process spawned
  spawned-Grows exp store_in_db config env payload w = go (final_data V config payload) refl
    where
      go :
          (o : Outcome (Text × List HoopoeErrorResponse))
          → final_data V config payload ≡ o
          → Grows w (spawned V (process V exp store_in_db config env payload w) w)
      go panic e = rw (e, process, spawned) (omega arith)
      go (done (text, errors)) e =
          rw (e, process, spawned)
            (handle_decoded-Grows exp store_in_db env text (V.decode_notif text)
              (record_errors errors w))

  -- What a run has handed over, against the run that it began as and the messages since.
  pub record Within (n : ℕ) (r r' : Run V.Store) : Type 0 where
    pub acks : r'.acks ≤ r.acks + n
    pub ws : length r'.world.ws ≤ length r.world.ws + n
    pub mailbox : length r'.world.mailbox ≤ length r.world.mailbox + n

  rmq_step-Within :
      (exp : ℕ) (store_in_db : Bool) (config : SecureCellConfig × Text) (m : Message)
      (r : Run V.Store)
      → Within 1 r (rmq_step V exp store_in_db config m r)
  unfolding rmq_step checked rmq_round
  rmq_step-Within exp store_in_db (config, unique_key) m r = elim (Option-cases m.body) [
    | inl e ↦ ground (arith, e)
    | inr (bytes, e) ↦ ground (arith, e, spawned-Grows exp store_in_db config m.env bytes r.world)
  ]

  -- However the services answer, a run of the RMQ consumer over n messages acknowledges at most n
  -- deliveries, and sends at most n texts to the websocket channel and n to the mutator actor.
  pub rmq_loop-Within :
      (exp : ℕ) (store_in_db : Bool) (config : SecureCellConfig × Text) (ms : List Message)
      (r : Run V.Store)
      → Within (length ms) r (loop V (rmq_step V exp store_in_db config) ms r)
  unfolding loop
  rmq_loop-Within exp store_in_db config [] r = omega arith
  rmq_loop-Within exp store_in_db config (m ∷ ms) r = ground (
    arith,
    rmq_step-Within exp store_in_db config m r,
    rmq_loop-Within exp store_in_db config ms (rmq_step V exp store_in_db config m r),
  )
