-- ===== src/Crypter/Laws.antt =====
-- What the two directions of src/interfaces/crypter.rs do to each other.
use hoopoe.Base.{
  Text, [], ◌∷◌, false, true, none, some, done, is_utf8, ◌≡◌, arith, inl, inr, Option-cases,
}
use hoopoe.Models.{SecureCellConfig, crypter_themis_error_code}
use hoopoe.Errors
use hoopoe.Errors.{new_error}
use hoopoe.Service.{Services}
use hoopoe.Crypter.{encrypt, decrypt}

module _ (V : Services) where
  module _ (text : Text) (c : SecureCellConfig) where
    abbrev filled : SecureCellConfig
    filled = record c { payload = text }

    pub encrypt_sealed :
        (sealed : Text)
        → V.secure_cell_encrypt filled ≡ some sealed
        → encrypt V text c ≡ (V.hex_encode sealed, record c { payload = sealed }, [])
    unfolding encrypt
    encrypt_sealed sealed e = rw (e, encrypt)

    pub encrypt_refused :
        V.secure_cell_encrypt filled ≡ none
        → encrypt V text c ≡ (
          text,
          filled,
          new_error crypter_themis_error_code Errors.Site.secure_cell_encrypt false ∷ [],
        )
    unfolding encrypt
    encrypt_refused e = rw (e, encrypt)

    pub decrypt_sealed :
        (sealed : Text) (d : SecureCellConfig)
        → V.secure_cell_encrypt filled ≡ some sealed
        → d.secret_key ≡ c.secret_key
        → d.passphrase ≡ c.passphrase
        → is_utf8 text ≡ true
        → decrypt V (V.hex_encode sealed) d ≡ done (text, record d { payload = text }, [])
    unfolding decrypt
    decrypt_sealed sealed d e k p u = ground (
      arith,
      V.decode-encode_hex sealed (V.secure_cell_encrypt-bytes filled sealed e),
      V.decrypt-encrypt filled sealed e,
    )

    -- Opening, with the keys that sealed it, what `encrypt` made without an error gives back the
    -- text, provided that the text is UTF-8; no error is recorded.
    pub decrypt-encrypt_text :
        (d : SecureCellConfig)
        → d.secret_key ≡ c.secret_key
        → d.passphrase ≡ c.passphrase
        → (encrypt V text c).2 ≡ []
        → is_utf8 text ≡ true
        → decrypt V (encrypt V text c).0 d ≡ done (text, record d { payload = text }, [])
    decrypt-encrypt_text d k p clean u = elim (Option-cases (V.secure_cell_encrypt filled)) [
      | inl e ↦ ground (arith, encrypt_refused e)
      | inr (sealed, e) ↦ rw (encrypt_sealed sealed e) (decrypt_sealed sealed d e k p u)
    ]
