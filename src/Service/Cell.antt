-- ===== src/Service/Cell.antt =====
-- The hex crate, and themis' secure cell in seal mode as wallexerr wraps it: opening a cell with the
-- key and the passphrase that sealed it gives back the data.
use hoopoe.Base.{Text, Option, some, ◌≡◌, ◌*◌, ◌<◌, length, All, is_utf8, true}
use hoopoe.Models.{SecureCellConfig}

pub record CellApi : Type 0 where
  pub hex_encode : Text → Text
  pub hex_decode : Text → Option Text
  pub decode-encode_hex : (b : Text) → All (λ x. x < 256) b → hex_decode (hex_encode b) ≡ some b
  pub hex_encode-utf8 : (b : Text) → is_utf8 (hex_encode b) ≡ true
  pub length-hex_encode : (b : Text) → length (hex_encode b) ≡ 2 * length b
  pub secure_cell_encrypt : SecureCellConfig → Option Text
  pub secure_cell_decrypt : SecureCellConfig → Option Text
  pub secure_cell_encrypt-bytes :
      (c : SecureCellConfig) (sealed : Text)
      → secure_cell_encrypt c ≡ some sealed
      → All (λ x. x < 256) sealed
  pub decrypt-encrypt :
      (c : SecureCellConfig) (sealed : Text)
      → secure_cell_encrypt c ≡ some sealed
      → secure_cell_decrypt (record c { payload = sealed }) ≡ some c.payload
