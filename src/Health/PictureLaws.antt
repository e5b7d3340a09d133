-- ===== src/Health/PictureLaws.antt =====
-- What src/apis/v1/http/health.rs, `picer`, leaves in the file system.
use hoopoe.Base.{
  ℕ, Text, codes, [], ◌∷◌, ◌++◌, true, false, none, some, ◌≡◌, refl, arith, text_eq, text_eq_refl,
  inl, inr, Option-cases, length,
}
use hoopoe.Service.{Services}
use hoopoe.Crypter.{encrypt_bytes, decrypt_bytes}
use hoopoe.Files.{Files}
use hoopoe.Health.Picture.{
  UserSecureCellConfig, Upload, uploaded, destination, encrypted_path, picture_config,
  keep_encrypted, picer,
}

text_eq-longer : (s : Text) (a : ℕ) (t : Text) → text_eq s (s ++ a ∷ t) ≡ false
unfolding text_eq
text_eq-longer [] a t = refl
text_eq-longer (b ∷ s) a t = ground (arith, text_eq-longer s a t)

module _ (V : Services) (default_file_name : Text) (user : UserSecureCellConfig) (file : Upload)
    (fs : Files) where
  abbrev dest : Text
  dest = destination default_file_name file

  abbrev kept : Files
  kept = (picer V default_file_name true user (some file) fs).0

  kept_of :
      (bytes : Text)
      → (encrypt_bytes V file.content (picture_config user file.content)).1.payload ≡ bytes
      → (kept (encrypted_path dest) ≡ some bytes) × (kept dest ≡ none)
  unfolding picer keep_encrypted
  kept_of bytes e = (
    ground (arith, e, text_eq_refl (encrypted_path dest), text_eq-longer dest b'.' (codes "enc")),
    ground (arith, text_eq_refl dest),
  )

  -- A picture that is uploaded and sealed without an error is kept in its `.enc` file only, and
  -- opening that file's bytes with the same keys gives the picture back.
  pub picer-decrypt :
      (picer V default_file_name true user (some file) fs).1 ≡ []
      → (bytes : Text) × (kept (encrypted_path dest) ≡ some bytes)
        × (kept dest ≡ none)
        × ((decrypt_bytes V [] (picture_config user bytes)).1.payload ≡ file.content)
  unfolding picer encrypt_bytes decrypt_bytes keep_encrypted picture_config
  picer-decrypt clean =
      elim (Option-cases (V.secure_cell_encrypt (picture_config user file.content))) [
        | inl e ↦ absurd (ground (arith, e, clean))
        | inr (sealed, e) ↦
            let k = kept_of sealed (ground (arith, e)) in
            (
              sealed,
              k.0,
              k.1,
              ground (arith, V.decrypt-encrypt (picture_config user file.content) sealed e),
            )
      ]

  -- If themis cannot seal the picture, the `.enc` file holds it in the clear; the answer is 200 and
  -- no error all the same.
  pub picture_kept_plain :
      V.secure_cell_encrypt (picture_config user file.content) ≡ none
      → (kept (encrypted_path dest) ≡ some file.content)
        × ((picer V default_file_name true user (some file) fs).2
            ≡ record { status = 200; is_err = false; message = uploaded (length file.content) })
  unfolding picer encrypt_bytes keep_encrypted picture_config
  picture_kept_plain e = ((kept_of file.content (ground (arith, e))).0, refl)
