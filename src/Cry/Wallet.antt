-- ===== src/Cry/Wallet.antt =====
-- What src/crypter/src/cry.rs calls of wallexerr and serde_json.
use hoopoe.Base.{Text, Bool, true, Option, some, ◌≡◌}
use hoopoe.Models.{SecureCellConfig}

pub record Wallet : Type 0 where
  pub ed25519_secret_key : Option Text
  pub ed25519_public_key : Option Text

pub record Aes256Config : Type 0 where
  pub secret_key : Text
  pub nonce : Text
  pub payload : Text  -- `data`

-- Signing seals the configuration's data and signs the sealed bytes; what it signs with a key
-- verifies under the public key of the same wallet (`IsPair`).
pub record WalletApi : Type 1 where
  pub IsPair : Text → Text → Type 0
  pub generate_sha256_from : Text → Text
  pub generate_keccak256_hash_from : Text → Text
  pub pretty_config : SecureCellConfig → Text
  pub read_config : Text → Option SecureCellConfig
  pub read-pretty_config : (c : SecureCellConfig) → read_config (pretty_config c) ≡ some c
  pub secure_cell_encrypt : SecureCellConfig → Option Text
  pub secure_cell_decrypt : SecureCellConfig → Option Text
  pub decrypt-encrypt :
      (c : SecureCellConfig) (sealed : Text)
      → secure_cell_encrypt c ≡ some sealed
      → secure_cell_decrypt (record c { payload = sealed }) ≡ some c.payload
  -- None is an error; the configuration is left with the sealed data.
  pub ed25519_secure_cell_sign : Text → SecureCellConfig → Option (Text × SecureCellConfig)
  pub signed_config :
      (key : Text) (c c' : SecureCellConfig) (sig : Text)
      → ed25519_secure_cell_sign key c ≡ some (sig, c')
      → (sealed : Text) × (c' ≡ record c { payload = sealed })
        × (secure_cell_encrypt c ≡ some sealed)
  pub verify_ed25519_signature : Text → Text → Text → Option Bool
  pub verify-sign :
      (key public : Text) (c c' : SecureCellConfig) (sig : Text)
      → IsPair key public
      → ed25519_secure_cell_sign key c ≡ some (sig, c')
      → verify_ed25519_signature sig c'.payload public ≡ some true
  pub ed25519_aes256_sign : Text → Aes256Config → Option (Text × Aes256Config)
  pub generate_data_from_aes256 : Aes256Config → Text
  pub ed25519_sign : Text → Text → Option Text
