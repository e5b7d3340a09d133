-- ===== src/Cry/Evm.antt =====
-- src/crypter/src/wallet.rs: new wallets, hashes, and signatures over an Ethereum endpoint whose
-- address is a variable of the environment.
use hoopoe.Base.{
  ℕ, Text, codes, [], Bool, Option, none, Outcome, done, ◌>>=◌, unwrap, ◌⊎◌, inr, true, some, ◌≡◌,
  sym, ap, >>=-eq-done, done-injective,
}

-- What is called of wallexerr. A new wallet depends on the seed of the random numbers; `verify` is
-- a `Result<bool, bool>`, an error on the left.
pub record EvmApi : Type 1 where
  pub Wallet : Type 0
  pub SignedData : Type 0
  pub new_ed25519 : ℕ → Wallet
  pub new_secp256r1 : ℕ → Wallet
  pub new_secp256k1 : ℕ → Text → Option Text → Wallet
  pub generate_keccak256_from : Text → Text
  pub generate_sha256_from : Text → Text
  pub sign : Wallet → Text → Text → SignedData × Text
  pub verify : Text → Text → Text → Text → Bool ⊎ Bool

module _ (E : EvmApi) where
  unfoldable pub generate_new_ed25519 : ℕ → E.Wallet
  generate_new_ed25519 seed = E.new_ed25519 seed

  unfoldable pub generate_new_secp256r1 : ℕ → E.Wallet
  generate_new_secp256r1 seed = E.new_secp256r1 seed

  -- No password and no mnemonic.
  unfoldable pub get_wallet : ℕ → E.Wallet
  get_wallet seed = E.new_secp256k1 seed [] none

  unfoldable pub get_keccak256_from : Text → Text
  get_keccak256_from cid = E.generate_keccak256_from cid

  unfoldable pub get_sha256_from : Text → Text
  get_sha256_from text = E.generate_sha256_from text

  -- `vars` is the environment; without the variable both panic.
  unfoldable pub evm_sign : (Text → Option Text) → E.Wallet → Text → Outcome (E.SignedData × Text)
  evm_sign vars wallet text = do
    endpoint ← unwrap (vars (codes "INFURA_POLYGON_WS_ENDPOINT"))
    done (E.sign wallet text endpoint)

  unfoldable pub verify_signature :
      (Text → Option Text) → Text → Text → Text → Outcome (Bool ⊎ Bool)
  verify_signature vars sender sig data_hash = do
    endpoint ← unwrap (vars (codes "INFURA_POLYGON_WS_ENDPOINT"))
    done (E.verify sender sig data_hash endpoint)

  -- What a wallet signed is verified for its address, by whichever process has the variable, if the
  -- library's signatures verify at every endpoint.
  pub verify_signature-evm_sign :
      (address : E.Wallet → Text) (sig_of hash_of : E.SignedData → Text)
      → ((w : E.Wallet) (text here there : Text)
          → let signed = (E.sign w text here).0 in
            E.verify (address w) (sig_of signed) (hash_of signed) there ≡ inr true)
      → (vars vars' : Text → Option Text) (w : E.Wallet) (text endpoint : Text)
        {o : E.SignedData × Text}
      → vars' (codes "INFURA_POLYGON_WS_ENDPOINT") ≡ some endpoint
      → evm_sign vars w text ≡ done o
      → verify_signature vars' (address w) (sig_of o.0) (hash_of o.0) ≡ done (inr true)
  unfolding evm_sign verify_signature
  verify_signature-evm_sign address sig_of hash_of verifies vars vars' w text endpoint there e =
      let (here, found, signed) =
        >>=-eq-done (unwrap (vars (codes "INFURA_POLYGON_WS_ENDPOINT"))) _ e in
      rw (there, sym (done-injective signed)) (ap done (verifies w text here endpoint))
