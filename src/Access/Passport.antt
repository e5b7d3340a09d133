-- ===== src/Access/Passport.antt =====
-- src/interfaces/passport.rs: `check_secret` and `verify_token_time`.
use hoopoe.Base.{
  Text, codes, ◌++◌, Bool, not, Option, none, some, if◌then◌else◌, text_eq, ℤ, pos, ltb_ℤ,
  parse_i64, Outcome, done, ◌>>=◌, unwrap, [],
}
use hoopoe.Models.{
  Response, reject, forbidden_status, not_acceptable_status, internal_server_error_status,
  empty_header_secret_key, wrong_secret_key, empty_header_token_time, wrong_token_time,
  expired_token_time, expired_or_wrong_scope, failure,
}
use hoopoe.Service.{Services}
use hoopoe.Service.Http.{HttpApi}

-- `Result<T, Response>`.
pub data Checked : Type 0 where
  ok : Text → Checked
  err : Response → Checked

abbrev pub or_default {ℓ} : {A : Type ℓ} → A → Option A → A
or_default d none = d
or_default d (some a) = a

unfoldable pub access_token_key : Text → Text
access_token_key scope = codes "access_token_for_" ++ scope

unfoldable pub check_secret : HttpApi → Text → Option Text → Checked
unfolding reject
check_secret H secret_key none = err (reject not_acceptable_status empty_header_secret_key)
check_secret H secret_key (some header) =
    if not (text_eq header secret_key)
    then err (reject forbidden_status wrong_secret_key)
    else ok (or_default [] (H.to_str header))

-- The comparison of a matching token with the clock, `now` in seconds.
unfoldable pub check_time : Text → ℤ → Checked
unfolding reject
check_time token_time now =
    if ltb_ℤ now (or_default (pos 0) (parse_i64 token_time))
    then err (reject forbidden_status expired_token_time)
    else ok token_time

module _ (V : Services) where
  check_stored : V.Store → Text → Text → ℤ → Outcome Checked
  unfolding reject
  check_stored s key header now =
      if V.exists s key
      then (do
        token_time ← unwrap (V.get s key)
        done (
            if not (text_eq header token_time)
            then err (reject forbidden_status wrong_token_time)
            else check_time token_time now))
      else done (err (reject forbidden_status expired_or_wrong_scope))

  -- `pool_ok` is whether the Redis pool gives a connection.
  unfoldable pub verify_token_time : Option Text → Text → Bool → V.Store → ℤ → Outcome Checked
  unfolding reject check_stored
  verify_token_time none scope pool_ok s now =
      done (err (reject not_acceptable_status empty_header_token_time))
  verify_token_time (some header) scope pool_ok s now =
      if pool_ok
      then check_stored s (access_token_key scope) header now
      else done (err (reject internal_server_error_status failure))
