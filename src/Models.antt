-- ===== src/Models.antt =====
-- The data that the parts exchange: src/models/event.rs, src/workers/notif/mod.rs (`CryptoConfig`),
-- src/constants/mod.rs (error codes), and the errors that src/error/mod.rs records.
use hoopoe.Base.{ℕ, ℤ, Text, Bool, List, Option}

pub data ActionType : Type 0 where
  product_purchased zerlog event_created event_expired event_locked : ActionType

-- `action_data` is the text of a JSON value; the code only passes it on.
pub record NotifData : Type 0 where
  pub id : Text
  pub receiver_info : Text
  pub action_data : Text
  pub actioner_info : Text
  pub action_type : ActionType
  pub fired_at : ℤ
  pub is_seen : Bool

pub record CryptoConfig : Type 0 where
  pub secret : Text
  pub passphrase : Text
  pub unique_key : Text

-- `id` is an i32; `from`, `to` and `page_size` are u64.
pub record EventQuery : Type 0 where
  pub owner : Option Text
  pub id : Option ℤ
  pub room : Option Text
  pub from : Option ℕ
  pub to : Option ℕ
  pub page_size : Option ℕ

-- wallexerr's configuration of a themis secure cell, as the code builds it.
pub record SecureCellConfig : Type 0 where
  pub secret_key : Text
  pub passphrase : Text
  pub payload : Text  -- `data`

abbrev pub storage_io_error_code : ℕ
storage_io_error_code = 0xFFFF

abbrev pub file_error_code : ℕ
file_error_code = 0xFFCE

abbrev pub chrono_error_code : ℕ
chrono_error_code = 0xFFAE

abbrev pub mailbox_channel_error_code : ℕ
mailbox_channel_error_code = 0xFFFD

abbrev pub codec_error_code : ℕ
codec_error_code = 0xFFFB

abbrev pub crypter_themis_error_code : ℕ
crypter_themis_error_code = 0xFFAB

-- src/models/server.rs, `Response`, as a handler renders it: the status code, which of the fixed
-- messages it carries, the error flag, and the data as text. An error text of a service is `failure`;
-- `meta` is left out.
pub data Notice : Type 0 where
  empty_header_auth_key invalid_given_jwt empty_header_secret_key wrong_secret_key : Notice
  empty_header_token_time wrong_token_time expired_token_time expired_or_wrong_scope : Notice
  token_time_generated failure : Notice
  invalid_end_time fetched_notification fetched_all_owner_notifications : Notice
  producer_registered consumer_started no_register_info : Notice

pub record Response : Type 0 where
  pub status : ℕ
  pub message : Notice
  pub is_err : Bool
  pub content : Text

abbrev pub ok_status : ℕ
ok_status = 200

abbrev pub forbidden_status : ℕ
forbidden_status = 403

abbrev pub not_acceptable_status : ℕ
not_acceptable_status = 406

abbrev pub internal_server_error_status : ℕ
internal_server_error_status = 500

unfoldable pub reject : ℕ → Notice → Response
reject status message = record {
  status = status;
  message = message;
  is_err = Bool.true;
  content = List.[];
}
