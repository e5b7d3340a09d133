-- ===== src/Errors.antt =====
-- src/error/mod.rs: what `HoopoeErrorResponse::new` leaves behind. Each error is written to the log
-- file, and goes to the zerlog producer actor if the caller passes its address. A site stands for
-- the method name that the caller passes.
pub mod Log
pub mod LogLaws
pub mod From
pub mod FromLaws
pub mod Kinds
use hoopoe.Base.{ℕ, Bool}

pub data Site : Type 0 where
  redis_pool decode_serde_redis decode_serde notif_mutator_send : Site
  consume_ack consume_getting_delivery consume_pool consume_create_channel : Site
  queue_declare queue_bind consume_basic_consume : Site
  exchange_declare create_channel basic_publish get_confirmation produce_pool : Site
  create_producer delivery_status publish_redis_pool publish_kafka_pool : Site
  secure_cell_encrypt secure_cell_decrypt : Site
  register_producer_rmq register_producer_kafka register_producer_redis : Site
  register_consumer_rmq register_consumer_kafka register_consumer_redis : Site
  check_db_ping check_redis_pool check_rmq_pool : Site
  picture_copy : Site
  kafka_redis_pool kafka_create_consumer redis_redis_pool redis_get_streamer : Site
  hoop_execute hoop_query_one hoop_save hoop_try_into_model hoop_set_from_json : Site
  zerlog_produce_pool zerlog_create_channel zerlog_exchange_declare : Site
  zerlog_basic_publish zerlog_get_confirmation : Site
  notif_save notif_try_into_model notif_set_from_json get_by_notif_id : Site

pub record HoopoeErrorResponse : Type 0 where
  pub code : ℕ
  pub site : Site
  pub to_zerlog : Bool

unfoldable pub new_error : ℕ → Site → Bool → HoopoeErrorResponse
new_error code site to_zerlog = record { code = code; site = site; to_zerlog = to_zerlog }
