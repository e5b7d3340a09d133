-- ===== src/Cry/EddsaLaws.antt =====
-- What a signature of src/crypter/src/cry.rs is worth to the other side.
use hoopoe.Base.{
  Text, codes, [], ◌∷◌, ◌++◌, true, false, some, done, ◌≡◌, arith, is_utf8, text_eq_refl,
}
use hoopoe.Models.{SecureCellConfig}
use hoopoe.Service.{Services}
use hoopoe.Cry.Wallet.{Wallet, WalletApi}
use hoopoe.Cry.Eddsa.{Saved, encrypt_and_sign, decrypt_and_verify}

module _ (V : Services) (K : WalletApi) where
  abbrev pub name : Text
  name = codes "ed25519-secure_cell"

  -- A packet of text, signed with a wallet whose keys belong together, and whose signing succeeds, is
  -- answered with the signature and leaves the sealed data. The other side, with the same wallet,
  -- the signature and the sealed data, verifies it and gets the text back.
  pub decrypt_and_verify-sign :
      (key public sig : Text) (config signed : SecureCellConfig) (saved saved' : Saved)
      → K.IsPair key public
      → is_utf8 config.payload ≡ true
      → K.ed25519_secure_cell_sign key config ≡ some (sig, signed)
      → let wallet : Wallet = record {
        ed25519_secret_key = some key;
        ed25519_public_key = some public;
      } in
        (encrypt_and_sign V K wallet config saved ≡ done (signed, (saved ++ name ∷ [], sig)))
        × (decrypt_and_verify V K wallet sig signed saved'
            ≡ done (saved' ++ name ∷ [], true, config.payload))
  unfolding encrypt_and_sign decrypt_and_verify
  decrypt_and_verify-sign key public sig config signed saved saved' pair utf8 signs =
      let (sealed, same, e) = K.signed_config key config signed sig signs in
      let verified = K.verify-sign key public config signed sig pair signs in
      let opened = K.decrypt-encrypt config sealed e in
      (
        ground (arith, utf8, signs, same, verified, opened, text_eq_refl config.payload),
        ground (arith, utf8, signs, same, verified, opened),
      )

  -- A verification that answers that the signature does not match, and is no error, is taken for a
  -- match: the packet is accepted and its text handed on.
  pub unverified_packet_accepted :
      (wallet : Wallet) (public sig text : Text) (config : SecureCellConfig) (saved : Saved)
      → wallet.ed25519_public_key ≡ some public
      → K.verify_ed25519_signature sig config.payload public ≡ some false
      → K.secure_cell_decrypt config ≡ some text
      → is_utf8 text ≡ true
      → decrypt_and_verify V K wallet sig config saved ≡ done (saved ++ name ∷ [], true, text)
  unfolding decrypt_and_verify
  unverified_packet_accepted wallet public sig text config saved has refused opened utf8 =
      ground (arith, has, refused, opened, utf8)
