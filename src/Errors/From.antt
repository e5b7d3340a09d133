-- ===== src/Errors/From.antt =====
-- src/error/mod.rs: the `From` conversions that `?` uses, and the answer that salvo writes for an
-- error that a handler returns.
use hoopoe.Base.{
  ℕ, Text, [], Bool, true, Option, Outcome, done, panic, unwrap, ◌>>=◌, is_utf8, if◌then◌else◌,
}
use hoopoe.Models.{
  codec_error_code, chrono_error_code, crypter_themis_error_code, storage_io_error_code,
  mailbox_channel_error_code, internal_server_error_status,
}
use hoopoe.Errors.Log.{ErrorKind, file, codec, time, crypter, storage, actor, ErrorInstance}

-- An error of one of the crates, with the text of its source, if it has one.
pub data Raised : Type 0 where
  io serde chrono themis redis_async lapin lapin_pool redis_pool sea_orm mailbox :
      Option Text → Raised

unfoldable pub convert : ℕ → ErrorKind → Option Text → Outcome ErrorInstance
convert code kind source =
    unwrap source >>= λ msg. done (record { code = code; msg = msg; kind = kind; method_name = [] })

unfoldable pub from_error : Raised → Outcome ErrorInstance
unfolding convert
from_error (io source) = convert 0 file source
from_error (serde source) = convert codec_error_code codec source
from_error (chrono source) = convert chrono_error_code time source
from_error (themis source) = convert crypter_themis_error_code crypter source
from_error (redis_async source) = convert storage_io_error_code storage source
from_error (lapin source) = convert storage_io_error_code storage source
from_error (lapin_pool source) = convert storage_io_error_code storage source
from_error (redis_pool source) = convert storage_io_error_code storage source
from_error (sea_orm source) = convert storage_io_error_code storage source
from_error (mailbox source) = convert mailbox_channel_error_code actor source

unfoldable pub from_parts : Text × ℕ × ErrorKind × Text → ErrorInstance
from_parts (msg, code, kind, method_name) = record {
  code = code;
  msg = msg;
  kind = kind;
  method_name = method_name;
}

-- The answer, its meta data left out.
pub record ErrorResponse : Type 0 where
  pub status : ℕ
  pub is_err : Bool
  pub message : Text

unfoldable pub write : ErrorInstance → Outcome ErrorResponse
write e =
    if is_utf8 e.msg
    then done (record { status = internal_server_error_status; is_err = true; message = e.msg })
    else panic

abbrev pub source_of_raised : Raised → Option Text
source_of_raised (io source) = source
source_of_raised (serde source) = source
source_of_raised (chrono source) = source
source_of_raised (themis source) = source
source_of_raised (redis_async source) = source
source_of_raised (lapin source) = source
source_of_raised (lapin_pool source) = source
source_of_raised (redis_pool source) = source
source_of_raised (sea_orm source) = source
source_of_raised (mailbox source) = source
