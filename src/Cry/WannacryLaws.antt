-- ===== src/Cry/WannacryLaws.antt =====
-- The files that src/crypter/src/cry.rs, `wannacry`, leaves.
use hoopoe.Base.{
  ℕ, Text, codes, List, [], false, some, done, ◌≡◌, arith, text_eq, text_eq_refl,
  text_eq-append_left,
}
use hoopoe.Models.{SecureCellConfig}
use hoopoe.Service.{Services}
use hoopoe.Files.{Files, write_file, write_file_self}
use hoopoe.Cry.Wallet.{WalletApi}
use hoopoe.Cry.Wannacry.{fresh_secret_key, config_path, enc_file_path, encrypt_file, decrypt_file}

module _ (V : Services) (K : WalletApi) where
  abbrev pub key_only : List ℕ → SecureCellConfig
  key_only draws = record { secret_key = fresh_secret_key V K draws; passphrase = []; payload = [] }

  paths_differ : (fpath : Text) → text_eq (enc_file_path V K fpath) (config_path V K fpath) ≡ false
  unfolding text_eq
  paths_differ fpath = text_eq-append_left fpath (codes ".enc") (codes ".config.json")

  -- A file is there and themis seals its content under the fresh key. Then its encryption succeeds,
  -- with the sealed bytes in the `.enc` file and the key alone in the `.config.json` file; and
  -- another call, with the configuration that is returned or with the one that is read back and
  -- given the bytes, restores the content under the path that it is given.
  pub decrypt_file-encrypt_file :
      (fpath decpath content sealed : Text) (draws : List ℕ) (fs : Files)
      → fs fpath ≡ some content
      → K.secure_cell_encrypt (record (key_only draws) { payload = content }) ≡ some sealed
      → (fs' : Files) × (read : SecureCellConfig) × (encrypt_file V K fpath draws fs
          ≡ done (fs', sealed, record (key_only draws) { payload = sealed }))
        × (fs' (enc_file_path V K fpath) ≡ some sealed)
        × (fs' (config_path V K fpath) ≡ some (K.pretty_config read))
        × (K.read_config (K.pretty_config read) ≡ some read)
        × (decrypt_file V K decpath (record read { payload = sealed }) fs'
            ≡ done (write_file decpath content fs', content))
  unfolding encrypt_file decrypt_file
  decrypt_file-encrypt_file fpath decpath content sealed draws fs there e =
      let with_config : Files =
        write_file (config_path V K fpath) (K.pretty_config (key_only draws)) fs in
      (
        write_file (enc_file_path V K fpath) sealed with_config,
        key_only draws,
        ground (arith, there, e),
        write_file_self (enc_file_path V K fpath) sealed with_config,
        ground (arith, paths_differ fpath, text_eq_refl (config_path V K fpath)),
        K.read-pretty_config (key_only draws),
        ground (arith, K.decrypt-encrypt (record (key_only draws) { payload = content }) sealed e),
      )
