-- ===== src/Access/Guard.antt =====
-- The middlewares: src/middlewares/passport.rs, `check_passport`, and check_token.rs, `check_token`.
use hoopoe.Base.{
  Text, codes, Bool, true, false, Option, none, some, ℤ, Outcome, done, ◌>>=◌, unwrap,
}
use hoopoe.Models.{
  Response, reject, not_acceptable_status, empty_header_auth_key, invalid_given_jwt,
}
use hoopoe.Service.{Services}
use hoopoe.Service.Http.{HttpApi}
use hoopoe.Requests.{HttpRequest, builder, fetch_get}
use hoopoe.Access.User.{UserData, CheckTokenResponse}
use hoopoe.Access.Passport.{Checked, ok, err, verify_token_time}

-- What the middlewares leave in the depot, whether the rest of the handlers is skipped, and the
-- response that replaces the one so far.
pub record Passage : Type 0 where
  pub passport_verified : Option Bool
  pub passport_token_time : Option Text
  pub skipped : Bool
  pub response : Option Response

unfoldable pub pass : Checked → Passage
pass (ok token_time) = record {
  passport_verified = some true;
  passport_token_time = some token_time;
  skipped = false;
  response = none;
}
pass (err response) = record {
  passport_verified = some false;
  passport_token_time = none;
  skipped = true;
  response = some response;
}

unfoldable pub check_passport : (V : Services) → Option Text → Bool → V.Store → ℤ → Outcome Passage
unfolding pass
check_passport V header pool_ok s now = do
  result ← verify_token_time V header (codes "write") pool_ok s now
  done (pass result)

-- What is outside: an HTTP client, and serde_json on an answer's body and on the value it has.
pub record CheckTokenApi (Value Answer : Type 0) : Type 0 where
  pub send : HttpRequest Value → Option Answer
  pub read_json : Answer → Option Value
  pub from_value : Value → Option (CheckTokenResponse Value)

-- `Result<UserData, Response>`.
pub data Fetched (Value : Type 0) : Type 0 where
  user : UserData Value → Fetched Value
  refused : Response → Fetched Value

-- The depot's user, whether the next handler is called from here, and the response.
pub record Checkpoint (Value : Type 0) : Type 0 where
  pub user_data : Option (UserData Value)
  pub called_next : Bool
  pub response : Option Response

module _ {Value Answer : Type 0} (H : HttpApi) (A : CheckTokenApi Value Answer) where
  -- A header that is no visible ASCII panics, and so does a service that does not answer in JSON. Of
  -- the answer only the user is looked at.
  unfoldable pub get_user : Text → Option Text → Outcome (Fetched Value)
  unfolding reject builder fetch_get
  get_user base_url none = done (refused (reject not_acceptable_status empty_header_auth_key))
  get_user base_url (some header) = do
    jwt ← unwrap (H.to_str header)
    json_data ← fetch_get A.send A.read_json (builder (codes "/health/check-token") jwt base_url)
    done (elim (A.from_value json_data) [
      | some check_token_resp ↦ user check_token_resp.user_data
      | none ↦ refused (reject not_acceptable_status invalid_given_jwt)
    ])

  -- `has_next` is whether a handler follows.
  unfoldable pub check_token : Text → Option Text → Bool → Outcome (Checkpoint Value)
  unfolding get_user
  check_token base_url header has_next = do
    fetched ← get_user base_url header
    done (elim fetched [
      | user found ↦ record { user_data = some found; called_next = has_next; response = none }
      | refused r ↦ record { user_data = none; called_next = false; response = some r }
    ])
