-- ===== src/Errors/Kinds.antt =====
-- src/error/mod.rs: the errors inside the kinds, with what they print.
use hoopoe.Base.{Text, codes, ◌++◌}
use hoopoe.Errors.Log.{ErrorKind, file, codec, crypter, server, storage, time, actor, request}

pub data SubError : Type 0 where
  read_write serde themis chrono mailbox : SubError
  redis_async redis_pool rmq rmq_pool kafka sea_orm : SubError
  salvo reqwest : SubError

-- A variant holds the error of a crate, here by its text.
pub record Caused : Type 0 where
  pub error : SubError
  pub cause : Text

-- The `Display` that thiserror derives.
unfoldable pub display_sub : SubError → Text
display_sub read_write = codes "[FILE] - failed to read from or write to file"
display_sub serde = codes "[CODEC] - failed to do codec operations"
display_sub themis = codes "[CRYPTER] - failed to do cryptography operations"
display_sub chrono = codes "[TIME] - failed to do parsing operations"
display_sub mailbox = codes "[ACTIX MAILBOX] - faild to send message to actor"
display_sub redis_async = codes "[REDIS ASYNC] - failed to subscribe to channel"
display_sub redis_pool = codes "[REDIS ACTOR] - failed to get redis pool"
display_sub rmq = codes "[RMQ] - failed to do rmq operation"
display_sub rmq_pool = codes "[RMQ] - failed to get lapin pool"
display_sub kafka = codes "[KAFKA] - failed to connect to kafka"
display_sub sea_orm = codes "[SEAORM] - faild to do db operation"
display_sub salvo = codes "[SALVO] - salvo error"
display_sub reqwest = codes "[REQWEST] - failed to send api request"

-- `Debug`: the field is marked `#[from]`, so that it is the source.
unfoldable pub debug_sub : Caused → Text
unfolding display_sub
debug_sub e =
    display_sub e.error ++ (codes "\n" ++ (codes "Caused by: \n\t" ++ (e.cause ++ codes "\n")))

-- The kind around it.
unfoldable pub kind_of : Caused → ErrorKind
kind_of e = elim e.error [
  | read_write ↦ file
  | serde ↦ codec
  | themis ↦ crypter
  | chrono ↦ time
  | mailbox ↦ actor
  | redis_async ↦ storage
  | redis_pool ↦ storage
  | rmq ↦ storage
  | rmq_pool ↦ storage
  | kafka ↦ storage
  | sea_orm ↦ storage
  | salvo ↦ server
  | reqwest ↦ request
]
