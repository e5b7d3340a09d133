-- ===== src/Crypter.antt =====
-- src/interfaces/crypter.rs: encryption in place of a `String` and of bytes. A method returns the
-- new text, the new configuration and the errors that it records (with no zerlog address).
pub mod Laws
use hoopoe.Base.{
  Text, List, [], ◌∷◌, Bool, false, Option, none, some, Outcome, ◌>>=◌, unwrap, done, panic,
  is_utf8, if◌then◌else◌,
}
use hoopoe.Models.{SecureCellConfig, crypter_themis_error_code}
use hoopoe.Errors
use hoopoe.Errors.{HoopoeErrorResponse, new_error}
use hoopoe.Service.{Services}

abbrev pub Crypted : Type 0
Crypted = Text × SecureCellConfig × List HoopoeErrorResponse

module _ (V : Services) where
  -- The text is its hexed cell; if themis fails it stays as it is.
  unfoldable pub encrypt : Text → SecureCellConfig → Crypted
  unfolding new_error
  encrypt text config =
      let filled = record config { payload = text } in
      elim (V.secure_cell_encrypt filled) [
        | none ↦ (
          text,
          filled,
          new_error crypter_themis_error_code Errors.Site.secure_cell_encrypt false ∷ [],
        )
        | some sealed ↦ (V.hex_encode sealed, record filled { payload = sealed }, [])
      ]

  as_utf8 : Text → Outcome Text
  as_utf8 bytes = if is_utf8 bytes then done bytes else panic

  decrypt_cell : Text → SecureCellConfig → Outcome Crypted
  unfolding as_utf8 new_error
  decrypt_cell text filled = elim (V.secure_cell_decrypt filled) [
    | none ↦ done (
      text,
      filled,
      new_error crypter_themis_error_code Errors.Site.secure_cell_decrypt false ∷ [],
    )
    | some bytes ↦ as_utf8 bytes >>= λ plain. done (plain, record filled { payload = bytes }, [])
  ]

  -- Text that is not hex, and plain data that is no UTF-8, panic.
  unfoldable pub decrypt : Text → SecureCellConfig → Outcome Crypted
  unfolding decrypt_cell
  decrypt text config = unwrap (V.hex_decode text) >>= λ sealed.
      decrypt_cell text (record config { payload = sealed })

  -- The same for bytes: the receiver is not read, the configuration's data is sealed in place.
  unfoldable pub encrypt_bytes : Text → SecureCellConfig → Crypted
  unfolding new_error
  encrypt_bytes bytes config = elim (V.secure_cell_encrypt config) [
    | none ↦ (
      bytes,
      config,
      new_error crypter_themis_error_code Errors.Site.secure_cell_encrypt false ∷ [],
    )
    | some sealed ↦ (bytes, record config { payload = sealed }, [])
  ]

  unfoldable pub decrypt_bytes : Text → SecureCellConfig → Crypted
  unfolding new_error
  decrypt_bytes bytes config = elim (V.secure_cell_decrypt config) [
    | none ↦ (
      bytes,
      config,
      new_error crypter_themis_error_code Errors.Site.secure_cell_decrypt false ∷ [],
    )
    | some opened ↦ (bytes, record config { payload = opened }, [])
  ]

  -- The receiver of the methods for `&[u8]` is a slice, with the same bodies.
  unfoldable pub encrypt_slice : Text → SecureCellConfig → Crypted
  unfolding encrypt_bytes
  encrypt_slice slice config = encrypt_bytes slice config

  unfoldable pub decrypt_slice : Text → SecureCellConfig → Crypted
  unfolding decrypt_bytes
  decrypt_slice slice config = decrypt_bytes slice config
