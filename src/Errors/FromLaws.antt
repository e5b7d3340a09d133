-- ===== src/Errors/FromLaws.antt =====
-- How src/error/mod.rs answers an error that a handler returns with `?`.
use hoopoe.Base.{
  ℕ, Text, Option, none, some, Outcome, done, panic, ◌>>=◌, ◌≡◌, refl, is_utf8, true, if◌then◌else◌,
}
use hoopoe.Models.{
  codec_error_code, chrono_error_code, crypter_themis_error_code, storage_io_error_code,
  mailbox_channel_error_code, internal_server_error_status,
}
use hoopoe.Errors.Log.{ErrorKind, file, codec, time, crypter, storage, actor}
use hoopoe.Errors.From.{
  convert, Raised, io, serde, chrono, themis, redis_async, lapin, lapin_pool, redis_pool, sea_orm,
  mailbox, from_error, ErrorResponse, write, source_of_raised,
}

abbrev pub answered : Option Text → Outcome ErrorResponse
answered none = panic
answered (some text) =
    if is_utf8 text
    then done (record { status = internal_server_error_status; is_err = true; message = text })
    else panic

write-convert :
    (code : ℕ) (kind : ErrorKind) (source : Option Text)
    → (convert code kind source >>= write) ≡ answered source
unfolding convert write
write-convert code kind none = refl
write-convert code kind (some text) = refl

-- Whatever the error, the client gets 500 with the text of the error's source, and the handler panics
-- if there is no source or its text is no UTF-8.
pub write-from_error :
    (raised : Raised) → (from_error raised >>= write) ≡ answered (source_of_raised raised)
unfolding from_error
write-from_error (io source) = write-convert 0 file source
write-from_error (serde source) = write-convert codec_error_code codec source
write-from_error (chrono source) = write-convert chrono_error_code time source
write-from_error (themis source) = write-convert crypter_themis_error_code crypter source
write-from_error (redis_async source) = write-convert storage_io_error_code storage source
write-from_error (lapin source) = write-convert storage_io_error_code storage source
write-from_error (lapin_pool source) = write-convert storage_io_error_code storage source
write-from_error (redis_pool source) = write-convert storage_io_error_code storage source
write-from_error (sea_orm source) = write-convert storage_io_error_code storage source
write-from_error (mailbox source) = write-convert mailbox_channel_error_code actor source
