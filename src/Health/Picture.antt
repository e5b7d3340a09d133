-- ===== src/Health/Picture.antt =====
-- src/apis/v1/http/health.rs, `picer`: an uploaded picture is kept encrypted.
use hoopoe.Base.{ℕ, Text, codes, List, [], ◌∷◌, ◌++◌, Bool, true, false, Option, none, some, length}
use hoopoe.Models.{SecureCellConfig, file_error_code}
use hoopoe.Errors
use hoopoe.Errors.{HoopoeErrorResponse, new_error}
use hoopoe.Service.{Services}
use hoopoe.Crypter.{encrypt_bytes}
use hoopoe.Files.{Files, write_file, remove_file}

pub record UserSecureCellConfig : Type 0 where
  pub secret_key : Text
  pub passphrase : Text

-- The file in the request: the name that it comes with, and what its temporary path holds.
pub record Upload : Type 0 where
  pub name : Option Text
  pub content : Text

-- The messages: how many bytes were written, an error of the copy, no file.
pub data Answer : Type 0 where
  uploaded : ℕ → Answer
  copy_failed no_file : Answer

pub record PictureResponse : Type 0 where
  pub status : ℕ
  pub is_err : Bool
  pub message : Answer

abbrev pub assets_img_dir : Text
assets_img_dir = codes "assets/images"

unfoldable pub or_default : Option Text → Text → Text
or_default none t = t
or_default (some name) t = name

unfoldable pub destination : Text → Upload → Text
unfolding or_default
destination default_file_name file =
    assets_img_dir ++ (codes "/" ++ or_default file.name default_file_name)

abbrev pub encrypted_path : Text → Text
encrypted_path dest = dest ++ codes ".enc"

unfoldable pub picture_config : UserSecureCellConfig → Text → SecureCellConfig
picture_config user content = record {
  secret_key = user.secret_key;
  passphrase = user.passphrase;
  payload = content;
}

module _ (V : Services) where
  -- The copy, its encryption beside it, and the removal of the copy. What `encrypt` leaves in the
  -- configuration goes to the file, whether it is sealed or not.
  unfoldable pub keep_encrypted :
      UserSecureCellConfig → Text → Text → Files → Files × List HoopoeErrorResponse
  unfolding picture_config
  keep_encrypted user dest content fs =
      let copied = write_file dest content fs in
      let config = picture_config user content in
      let (bytes, config', errors) = encrypt_bytes V content config in
      (remove_file dest (write_file (encrypted_path dest) config'.payload copied), errors)

  unfoldable pub picer :
      Text
      → Bool
      → UserSecureCellConfig
      → Option Upload
      → Files
      → Files × List HoopoeErrorResponse × PictureResponse
  unfolding destination keep_encrypted new_error
  picer default_file_name copy_ok user none fs =
      (fs, [], record { status = 400; is_err = true; message = no_file })
  picer default_file_name false user (some file) fs = (
    fs,
    new_error file_error_code Errors.Site.picture_copy false ∷ [],
    record { status = 406; is_err = false; message = copy_failed },
  )
  picer default_file_name true user (some file) fs =
      let (fs', errors) =
        keep_encrypted user (destination default_file_name file) file.content fs in
      (
        fs',
        errors,
        record { status = 200; is_err = false; message = uploaded (length file.content) },
      )
