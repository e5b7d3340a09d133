-- ===== src/Broker/PublishLaws.antt =====
-- What a producer of src/workers/notif/mod.rs sends, and what it leaves in Redis.
use hoopoe.Base.{
  ℕ, ◌+◌, ◌<◌, Text, List, [], ◌∷◌, ◌++◌, true, false, Option, none, some, ◌≡◌, refl, arith, inl,
  inr, ◌≢◌, Option-cases, Bool-cases, done, is_utf8, length, All, text_eq_refl, is_empty,
}
use mathlib.Core.List.{append_assoc}
use hoopoe.Models.{
  NotifData, SecureCellConfig, CryptoConfig, crypter_themis_error_code, storage_io_error_code,
}
use hoopoe.Errors
use hoopoe.Errors.{Site, HoopoeErrorResponse, new_error}
use hoopoe.Service.{Services}
use hoopoe.Crypter.{encrypt}
use hoopoe.Crypter.Laws.{encrypt_sealed, encrypt_refused, decrypt_sealed}
use hoopoe.Broker.{World, Kind, config_key, default_config, seal_config, consumer_config}
use hoopoe.Broker.Process.{check_channel, final_data}
use hoopoe.Broker.Publish.{
  PublishNotifToRmq, RmqAnswers, seal_notif, leave_config, handle_publish_rmq, publish_until_taken,
}

is_empty_of_length : (s : Text) → 0 < length s → is_empty s ≡ false
is_empty_of_length [] h = absurd (omega arith)
is_empty_of_length (x ∷ s) h = refl

publish_until_taken_zeros :
    (answers : List ℕ) → All (λ n. n ≡ 0) answers → publish_until_taken answers ≡ none
unfolding publish_until_taken
publish_until_taken_zeros [] z = refl
publish_until_taken_zeros (n ∷ rest) z = ground (arith, publish_until_taken_zeros rest z.1)

publish_until_taken_first :
    (before : List ℕ) (subs : ℕ) (later : List ℕ)
    → All (λ n. n ≡ 0) before
    → 0 < subs
    → publish_until_taken (before ++ subs ∷ later) ≡ some (length before + 1)
unfolding publish_until_taken
publish_until_taken_first [] subs later z h = ground arith
publish_until_taken_first (n ∷ before) subs later z h =
    ground (arith, publish_until_taken_first before subs later z.1 h)

-- After answers of no receiver, the producer for Redis is still waiting; an answer of at least one
-- ends the loop at that round, whatever would be answered later.
pub publish_until_taken_lem :
    (before : List ℕ) (subs : ℕ) (later : List ℕ)
    → All (λ n. n ≡ 0) before
    → 0 < subs
    → (publish_until_taken before ≡ none)
      × (publish_until_taken (before ++ subs ∷ later) ≡ some (length before + 1))
publish_until_taken_lem before subs later z h =
    (publish_until_taken_zeros before z, publish_until_taken_first before subs later z h)

module _ (V : Services) where
  -- A producer's encryption that a consumer with the same configuration can undo: none, or keys
  -- that are not empty with which themis seals the notification.
  abbrev pub IsSealable : NotifData → Option CryptoConfig → Type 0
  IsSealable notif none = Unit
  IsSealable notif (some c) =
      (c.secret ≢ [])
      × (c.passphrase ≢ [])
      × ((encrypt V (V.encode_notif notif) (seal_config V c)).2 ≡ [])

  hex_encode-ne : (b : Text) → b ≢ [] → is_empty (V.hex_encode b) ≡ false
  hex_encode-ne [] h = absurd (h refl)
  hex_encode-ne (x ∷ b) h =
      is_empty_of_length (V.hex_encode (x ∷ b)) (omega (arith, V.length-hex_encode (x ∷ b)))

  -- An encryption without errors is a hexed cell.
  encrypt-clean :
      (text : Text) (c : SecureCellConfig)
      → (encrypt V text c).2 ≡ []
      → (sealed : Text) × (V.secure_cell_encrypt (record c { payload = text }) ≡ some sealed)
        × ((encrypt V text c).0 ≡ V.hex_encode sealed)
  encrypt-clean text c clean =
      elim (Option-cases (V.secure_cell_encrypt (record c { payload = text }))) [
        | inl e ↦ ground (arith, encrypt_refused V text c e)
        | inr (sealed, e) ↦ (sealed, e, ground (arith, encrypt_sealed V text c sealed e))
      ]

  -- The text that the consumer gets back is the notification's.
  pub final_data-seal :
      (notif : NotifData) (c : Option CryptoConfig)
      → IsSealable notif c
      → is_utf8 (V.encode_notif notif) ≡ true
      → final_data V (consumer_config V c).0 (seal_notif V notif c).text
        ≡ done (V.encode_notif notif, [])
  unfolding seal_notif consumer_config final_data seal_config
  final_data-seal notif none s u = refl
  final_data-seal notif (some c) s u =
      let (sealed, e, hexed) = encrypt-clean (V.encode_notif notif) (seal_config V c) s.2 in
      ground (
        arith,
        hexed,
        hex_encode-ne c.secret s.0,
        hex_encode-ne c.passphrase s.1,
        decrypt_sealed V (V.encode_notif notif) (seal_config V c) sealed (seal_config V c) e refl
            refl u,
      )

  pub text-seal-utf8 :
      (notif : NotifData) (c : Option CryptoConfig)
      → IsSealable notif c
      → is_utf8 (V.encode_notif notif) ≡ true
      → is_utf8 (seal_notif V notif c).text ≡ true
  unfolding seal_notif
  text-seal-utf8 notif none s u = u
  text-seal-utf8 notif (some c) s u =
      let (sealed, e, hexed) = encrypt-clean (V.encode_notif notif) (seal_config V c) s.2 in
      ground (arith, hexed, V.hex_encode-utf8 sealed)

  check_channel-set :
      (kind : Kind) (s : V.Store) (config : SecureCellConfig) (unique_key : Text)
      → check_channel V kind
          (V.set s (config_key kind unique_key) (V.encode_config config))
          config
          unique_key
        ≡ done true
  unfolding check_channel
  check_channel-set kind s config unique_key = ground (
    arith,
    V.exists-get (V.set s (config_key kind unique_key) (V.encode_config config))
        (config_key kind unique_key),
    V.get-set s (config_key kind unique_key) (V.encode_config config) (config_key kind unique_key),
    text_eq_refl (config_key kind unique_key),
    V.decode-encode_config config,
    text_eq_refl config.passphrase,
    text_eq_refl config.secret_key,
  )

  -- The configuration that is left is the one that the consumer builds.
  pub check_channel-leave_config :
      (kind : Kind) (notif : NotifData) (c : Option CryptoConfig) (w : World V.Store)
      → let s = seal_notif V notif c in
        check_channel V kind
          (leave_config V kind s.config s.unique_key w).store
          (consumer_config V c).0
          (consumer_config V c).1
        ≡ done true
  unfolding leave_config seal_notif consumer_config
  check_channel-leave_config kind notif none w = check_channel-set kind w.store default_config []
  check_channel-leave_config kind notif (some c) w =
      check_channel-set kind w.store (seal_config V c) c.unique_key

  abbrev sealing : List HoopoeErrorResponse
  sealing =
      record {
        code = crypter_themis_error_code;
        site = Errors.Site.secure_cell_encrypt;
        to_zerlog = false;
      }
      ∷ []

  abbrev later_error : Site → List HoopoeErrorResponse
  later_error site = record { code = storage_io_error_code; site = site; to_zerlog = true } ∷ []

  -- If themis cannot seal the notification, what goes to the exchange is its plain text, and the
  -- failure is recorded, before any error of the publication; Redis gives a connection for the
  -- configuration, and the broker answers the pool, the channel and the publication.
  pub failed_encryption_publishes_plain :
      (msg : PublishNotifToRmq) (c : CryptoConfig) (a : RmqAnswers) (w : World V.Store)
      → msg.encryption_config ≡ some c
      → V.secure_cell_encrypt (record (seal_config V c) { payload = V.encode_notif msg.notif_data })
        ≡ none
      → a.redis_ok ≡ true
      → a.pool ≡ true
      → a.channel ≡ true
      → a.publish ≡ true
      → ((handle_publish_rmq V a msg w).1
          ≡ some (record {
            exchange = msg.exchange_name;
            routing_key = msg.routing_key;
            payload = V.encode_notif msg.notif_data;
          }))
        × ((rest : List HoopoeErrorResponse) × ((handle_publish_rmq V a msg w).0.errors
              ≡ w.errors
                ++ (record {
                  code = crypter_themis_error_code;
                  site = Errors.Site.secure_cell_encrypt;
                  to_zerlog = false;
                }
                    ∷ rest)))
  unfolding handle_publish_rmq seal_notif new_error
  failed_encryption_publishes_plain msg c a w enc e r p ch pb =
      let refused = encrypt_refused V (V.encode_notif msg.notif_data) (seal_config V c) e in
      (
        ground (arith, enc, refused),
        elim (Bool-cases a.exchange_declare) [
          | inl declared ↦ elim (Bool-cases a.confirm) [
            | inl sure ↦ ([], ground (arith, enc, refused, declared, sure))
            | inr unsure ↦ (
              later_error Errors.Site.get_confirmation,
              ground (
                arith,
                enc,
                refused,
                declared,
                unsure,
                append_assoc w.errors sealing (later_error Errors.Site.get_confirmation),
              ),
            )
          ]
          | inr undeclared ↦ elim (Bool-cases a.confirm) [
            | inl sure ↦ (
              later_error Errors.Site.exchange_declare,
              ground (
                arith,
                enc,
                refused,
                undeclared,
                sure,
                append_assoc w.errors sealing (later_error Errors.Site.exchange_declare),
              ),
            )
            | inr unsure ↦ (
              later_error Errors.Site.exchange_declare ++ later_error Errors.Site.get_confirmation,
              ground (
                arith,
                enc,
                refused,
                undeclared,
                unsure,
                append_assoc w.errors sealing (later_error Errors.Site.exchange_declare),
                append_assoc w.errors (sealing ++ later_error Errors.Site.exchange_declare)
                    (later_error Errors.Site.get_confirmation),
              ),
            )
          ]
        ],
      )
