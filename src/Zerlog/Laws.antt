-- ===== src/Zerlog/Laws.antt =====
-- From an error of src/error/mod.rs to the exchange of src/workers/zerlog/mod.rs.
use hoopoe.Base.{
  ℤ, Text, codes, [], ◌∷◌, ◌++◌, Bool, true, false, ◌&&◌, none, some, done, if◌then◌else◌, ◌≡◌,
  arith, All, length, text_eq,
}
use hoopoe.Errors.Log.{ErrorInstance, LogEnv, wirte_async}
use hoopoe.Files.{Files}
use hoopoe.Broker.Publish.{fanout, exchange_kind, RmqAnswers}
use hoopoe.Zerlog.{ProduceNotif, ZerlogApi, Report, zerlog_message, new_instance, handle_produce}

abbrev pub takes : RmqAnswers → Bool
takes a = a.pool && a.channel && a.exchange_declare && a.publish

module _ (Z : ZerlogApi) (a : RmqAnswers) where
  -- What one call of the actor sends, and the errors of its own that it records.
  pub handle_produce_lem :
      (msg : ProduceNotif)
      → ((handle_produce Z a msg).1 ≡ (
          if takes a
          then some (
            exchange_kind msg.exchange_type,
            record {
              exchange = msg.exchange_name;
              routing_key = msg.routing_key;
              payload = Z.encode_produce msg;
            },
          )
          else none))
        × (length (handle_produce Z a msg).0 ≡ (if takes a && a.confirm then 0 else 1))
        × All (λ e. e.to_zerlog ≡ false) (handle_produce Z a msg).0
  unfolding handle_produce
  handle_produce_lem msg = (ground arith, ground arith, ground arith)

  -- An error that a caller with an address makes is logged and handed to the actor once. What the
  -- actor publishes of it goes, if RabbitMQ takes the steps up to the publication, to the fanout
  -- exchange for logs; and each error that the actor itself records in doing so goes to the log
  -- only, so that no error is reported without end.
  pub new_instance-reported :
      (env : LogEnv) (uuid : Text) (now : ℤ) (e : ErrorInstance) (r : Report) (written : Files)
      → wirte_async env e r.files ≡ done written
      → let msg = zerlog_message Z e uuid now in
        (new_instance Z env true true uuid now e r
          ≡ done (record { files = written; outbox = r.outbox ++ msg ∷ [] }))
        × ((handle_produce Z a msg).1 ≡ (
            if takes a
            then some (
              fanout,
              record {
                exchange = codes "Hoopoe:ZerlogExchange";
                routing_key = [];
                payload = Z.encode_produce msg;
              },
            )
            else none))
        × All (λ own. own.to_zerlog ≡ false) (handle_produce Z a msg).0
  unfolding new_instance zerlog_message exchange_kind text_eq
  new_instance-reported env uuid now e r written ran =
      let msg = zerlog_message Z e uuid now in
      let p = handle_produce_lem msg in (ground (arith, ran), p.0, p.2)
