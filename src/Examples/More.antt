-- ===== src/Examples/More.antt =====
-- Further services that run: connections, a wallet whose signatures are its keys, and texts for the
-- error reports. The rest is as in the other examples.
use hoopoe.Base.{Text, Bool, true, Option, some, ◌≡◌, refl, text_eq, text_eq_refl, arith}
use hoopoe.Models.{SecureCellConfig}
use hoopoe.Storage.Engine.{Connections}
use hoopoe.Zerlog.{ZerlogApi}
use hoopoe.Cry.Wallet.{WalletApi}
use hoopoe.Examples.Toy.{toy}

abbrev pub connections : Connections
connections = record {
  PubsubConnection = Text;
  DistLock = Text;
  DatabaseConnection = Text;
  LapinPool = Text;
  RedisPool = Text;
  pubsub_connect = λ host port password. some host;
  new_redlock = λ url. url;
  database_connect = λ url. some url;
  create_lapin_pool = λ url. some url;
  create_redis_pool = λ url. some url;
}

abbrev pub zerlog_texts : ZerlogApi
zerlog_texts = record { error_json = λ e. e.msg; encode_produce = λ p. p.notif_data.action_data }

abbrev sign : Text → SecureCellConfig → Option (Text × SecureCellConfig)
sign key c = some (key, c)

abbrev verify : Text → Text → Text → Option Bool
verify sig bytes public = some (text_eq sig public)

pub signed :
    (key : Text) (c c' : SecureCellConfig) (sig : Text)
    → sign key c ≡ some (sig, c')
    → (sealed : Text) × (c' ≡ record c { payload = sealed }) × (some c.payload ≡ some sealed)
signed key c c' sig e = (c.payload, cc, refl)

pub verified :
    (key public : Text) (c c' : SecureCellConfig) (sig : Text)
    → key ≡ public
    → sign key c ≡ some (sig, c')
    → verify sig c'.payload public ≡ some true
verified key public c c' sig pair e = ground (arith, pair, e, text_eq_refl public)

pub reopened : (c : SecureCellConfig) (s : Text) → some c.payload ≡ some s → some s ≡ some c.payload
reopened c s e = cc

abbrev pub wallets : WalletApi
wallets = record {
  IsPair = λ key public. key ≡ public;
  generate_sha256_from = λ t. t;
  generate_keccak256_hash_from = λ t. t;
  pretty_config = toy.encode_config;
  read_config = toy.decode_config;
  read-pretty_config = toy.decode-encode_config;
  secure_cell_encrypt = λ c. some c.payload;
  secure_cell_decrypt = λ c. some c.payload;
  decrypt-encrypt = reopened;
  ed25519_secure_cell_sign = sign;
  signed_config = signed;
  verify_ed25519_signature = verify;
  verify-sign = verified;
  ed25519_aes256_sign = λ key c. some (key, c);
  generate_data_from_aes256 = λ c. c.payload;
  ed25519_sign = λ text key. some key;
}
