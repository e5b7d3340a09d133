-- ===== src/Cry/Eddsa.antt =====
-- src/crypter/src/cry.rs, `eddsa_with_symmetric_signing` and `eddsa_with_keccak256_signing`. What is
-- saved to a JSON file is kept by its name; the wallet is a copy that is dropped.
use hoopoe.Base.{
  ℕ, Text, codes, List, [], ◌∷◌, ◌++◌, Bool, true, false, none, some, Outcome, done, panic, ◌>>=◌,
  unwrap, if◌then◌else◌, is_utf8, text_eq,
}
use hoopoe.Models.{SecureCellConfig}
use hoopoe.Service.{Services}
use hoopoe.Cry.Wallet.{Wallet, Aes256Config, WalletApi}
use hoopoe.Cry.Random.{gen_random_chars}

-- `std::str::from_utf8(..).unwrap()`.
unfoldable pub text_of : Text → Outcome Text
text_of bytes = if is_utf8 bytes then done bytes else panic

-- The files of wallets that were saved.
abbrev pub Saved : Type 0
Saved = List Text

-- The end of the functions that sign: what was decrypted is compared with what was to be signed.
-- The flag inside `Ok` is not looked at.
unfoldable pub compared : Text → Text → Text → Text → Saved → Saved × Text
compared name sig raw decrypted saved =
    if text_eq decrypted raw then (saved ++ name ∷ [], sig) else (saved, [])

module _ (V : Services) (K : WalletApi) where
  -- The result is the signature, with what is left in the configuration.
  unfoldable pub encrypt_and_sign :
      Wallet → SecureCellConfig → Saved → Outcome (SecureCellConfig × (Saved × Text))
  unfolding text_of compared
  encrypt_and_sign wallet config saved = do
    raw ← text_of config.payload
    key ← unwrap wallet.ed25519_secret_key
    (sig, signed) ← unwrap (K.ed25519_secure_cell_sign key config)
    public ← unwrap wallet.ed25519_public_key
    elim (K.verify_ed25519_signature sig signed.payload public) [
      | none ↦ done (signed, (saved, []))
      | some verified ↦ unwrap (K.secure_cell_decrypt signed) >>= λ dec. text_of dec >>= λ text.
          (done (signed, compared (codes "ed25519-secure_cell") sig raw text saved))
    ]

  unfoldable pub decrypt_and_verify :
      Wallet → Text → SecureCellConfig → Saved → Outcome (Saved × Bool × Text)
  unfolding text_of
  decrypt_and_verify wallet sig config saved = do
    public ← unwrap wallet.ed25519_public_key
    elim (K.verify_ed25519_signature sig config.payload public) [
      | none ↦ done (saved, false, [])
      | some verified ↦ unwrap (K.secure_cell_decrypt config) >>= λ dec.
          text_of dec >>= λ text. (done (saved ++ codes "ed25519-secure_cell" ∷ [], true, text))
    ]

  -- The nonce and the key are drawn for each call.
  unfoldable pub aes256_signing : List ℕ → List ℕ → Text → Wallet → Saved → Outcome (Saved × Text)
  unfolding text_of compared
  aes256_signing key_draws nonce_draws text wallet saved = do
    let config : Aes256Config = record {
      secret_key = gen_random_chars key_draws;
      nonce = gen_random_chars nonce_draws;
      payload = text;
    }
    key ← unwrap wallet.ed25519_secret_key
    (sig, signed) ← unwrap (K.ed25519_aes256_sign key config)
    public ← unwrap wallet.ed25519_public_key
    elim (K.verify_ed25519_signature sig signed.payload public) [
      | none ↦ done (saved, [])
      | some verified ↦ text_of (K.generate_data_from_aes256 signed) >>= λ dec.
          (done (compared (codes "ed25519-aes256") sig text dec saved))
    ]

  unfoldable pub secure_cell_signing : List ℕ → Text → Wallet → Saved → Outcome (Saved × Text)
  unfolding text_of compared
  secure_cell_signing draws text wallet saved = do
    let config : SecureCellConfig = record {
      secret_key = V.hex_encode (K.generate_keccak256_hash_from (gen_random_chars draws));
      passphrase = [];
      payload = text;
    }
    key ← unwrap wallet.ed25519_secret_key
    (sig, signed) ← unwrap (K.ed25519_secure_cell_sign key config)
    public ← unwrap wallet.ed25519_public_key
    elim (K.verify_ed25519_signature sig signed.payload public) [
      | none ↦ done (saved, [])
      | some verified ↦ unwrap (K.secure_cell_decrypt signed) >>= λ dec. text_of dec >>= λ dec'.
          (done (compared (codes "ed25519-secure_cell") sig text dec' saved))
    ]

  unfoldable pub keccak256_signing : Text → Wallet → Saved → Outcome (Saved × Text)
  keccak256_signing text wallet saved = do
    key ← unwrap wallet.ed25519_secret_key
    sig ← unwrap (K.ed25519_sign text key)
    public ← unwrap wallet.ed25519_public_key
    elim (K.verify_ed25519_signature sig (K.generate_keccak256_hash_from text) public) [
      | none ↦ done (saved, [])
      | some verified ↦ done (saved ++ codes "ed25519-keccak256" ∷ [], sig)
    ]
