-- ===== src/Access/Token.antt =====
-- src/apis/v1/http/auth.rs, `generate_access_token`.
use hoopoe.Base.{
  Text, Bool, false, Option, none, some, if◌then◌else◌, ℤ, pos, as_u64, show_i64, Outcome, done,
  ◌>>=◌, unwrap, [],
}
use hoopoe.Models.{Response, ok_status, token_time_generated, failure}
use hoopoe.Service.{Services}
use hoopoe.Service.Http.{HttpApi}
use hoopoe.Access.Passport.{ok, err, or_default, check_secret, access_token_key}

-- The query parameters, both optional.
pub record GenTokenQueries : Type 0 where
  pub exp : Option ℤ
  pub scope : Option Text

-- A failure of Redis or of themis is answered with status 200 and no error flag.
unfoldable pub failed : Response
failed = record { status = ok_status; message = failure; is_err = false; content = [] }

unfoldable pub succeeded : Text → Response
succeeded token = record {
  status = ok_status;
  message = token_time_generated;
  is_err = false;
  content = token;
}

module _ (V : Services) (H : HttpApi) where
  unfoldable pub store_token : GenTokenQueries → Text → ℤ → V.Store → Outcome (V.Store × Response)
  unfolding failed succeeded
  store_token params secret now s =
      let exp_time = or_default (pos 0) params.exp in
      let scope = or_default [] params.scope in
      unwrap (H.add_seconds now exp_time) >>= λ token_time.
      elim (V.secure_cell_encrypt
        (record { secret_key = secret; passphrase = secret; payload = show_i64 token_time })) [
          | none ↦ done (s, failed)
          | some token ↦
              unwrap (V.set_ex s (access_token_key scope) (H.to_base58 token) (as_u64 exp_time))
              >>= λ t. done (t, succeeded (H.to_base58 token))
        ]

  unfoldable pub generate_access_token :
      Text → Option Text → GenTokenQueries → Bool → ℤ → V.Store → Outcome (V.Store × Response)
  unfolding store_token failed
  generate_access_token secret_key header params pool_ok now s =
      if pool_ok
      then (elim (check_secret H secret_key header) [
        | ok secret ↦ store_token params secret now s
        | err response ↦ done (s, response)
      ])
      else done (s, failed)
