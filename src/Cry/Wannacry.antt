-- ===== src/Cry/Wannacry.antt =====
-- src/crypter/src/cry.rs, `wannacry`: a file is encrypted under a fresh key, which goes beside it.
use hoopoe.Base.{Text, codes, List, [], ◌++◌, ℕ, Outcome, done, ◌>>=◌, unwrap}
use hoopoe.Models.{SecureCellConfig}
use hoopoe.Service.{Services}
use hoopoe.Files.{Files, write_file}
use hoopoe.Cry.Wallet.{WalletApi}
use hoopoe.Cry.Random.{gen_random_chars}

module _ (V : Services) (K : WalletApi) where
  -- The generator's seed is the hash that it was made from.
  unfoldable pub fresh_secret_key : List ℕ → Text
  fresh_secret_key draws = V.hex_encode (
      K.generate_keccak256_hash_from
        (V.hex_encode (K.generate_sha256_from (gen_random_chars draws))))

  abbrev pub config_path : Text → Text
  config_path fpath = fpath ++ codes ".config.json"

  abbrev pub enc_file_path : Text → Text
  enc_file_path fpath = fpath ++ codes ".enc"

  unfoldable pub encrypt_file : Text → List ℕ → Files → Outcome (Files × Text × SecureCellConfig)
  unfolding fresh_secret_key
  encrypt_file fpath draws fs = do
    buffer ← unwrap (fs fpath)
    let config : SecureCellConfig = record {
      secret_key = fresh_secret_key draws;
      passphrase = [];
      payload = [];
    }
    let with_config = write_file (config_path fpath) (K.pretty_config config) fs
    encrypted ← unwrap (K.secure_cell_encrypt (record config { payload = buffer }))
    done (
      write_file (enc_file_path fpath) encrypted with_config,
      encrypted,
      record config { payload = encrypted },
    )

  unfoldable pub decrypt_file : Text → SecureCellConfig → Files → Outcome (Files × Text)
  decrypt_file decpath config fs = do
    decrypted ← unwrap (K.secure_cell_decrypt config)
    done (write_file decpath decrypted fs, decrypted)
