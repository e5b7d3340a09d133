-- ===== src/Examples/AccessRuns.antt =====
-- The theorems on src/interfaces/passport.rs, src/apis/v1/http/auth.rs and the middlewares at
-- concrete inputs.
use hoopoe.Base.{
  Text, codes, List, [], ◌∷◌, true, false, none, some, ◌≡◌, ◌≢◌, ◌↔◌, refl, text_eq, pos, arith,
  done, parse_i64, parse_digits, show_i64, if◌then◌else◌,
}
use hoopoe.Models.{not_acceptable_status, empty_header_secret_key, reject}
use hoopoe.Access.Passport.{ok, check_secret, verify_token_time, access_token_key}
use hoopoe.Access.PassportLaws.{check_token_calls_next, IsCurrent, verify_token_time_iff}
use hoopoe.Access.Guard.{Checkpoint, CheckTokenApi, check_token}
use hoopoe.Access.User.{UserData, CheckTokenResponse}
use hoopoe.Requests.{Verb}
use hoopoe.Access.Token.{generate_access_token, succeeded, GenTokenQueries}
use hoopoe.Access.TokenLaws.{generate-verify}
use hoopoe.Examples.Toy.{toy, http, Entry}

abbrev pub secret : Text
secret = codes "secret"

abbrev stored_token : Text → List Entry
stored_token t = record { key = access_token_key (codes "write"); value = t; expiry = some 60 } ∷ []

token_found :
    toy.get (stored_token (codes "200")) (access_token_key (codes "write")) ≡ some (codes "200")
unfolding text_eq access_token_key
token_found = refl

token_number : parse_i64 (codes "200") ≡ some (pos 200)
unfolding parse_i64 parse_digits
token_number = refl

verify_token_time_iff_example :
    (verify_token_time toy
        (some (codes "200"))
        (codes "write")
        true
        (stored_token (codes "200"))
        (pos 300)
      ≡ done (ok (codes "200")))
    ↔ ((codes "200" ≡ codes "200")
        × IsCurrent toy (codes "write") (stored_token (codes "200")) (pos 300) (codes "200"))
verify_token_time_iff_example =
    verify_token_time_iff toy (codes "write") (stored_token (codes "200")) (pos 300) (codes "200")
      (codes "200")

-- A service that knows one token; its JSON is a text.
abbrev named : UserData Text
named = record {
  id = pos 7;
  region = none;
  username = codes "ada";
  bio = none;
  avatar = none;
  banner = none;
  wallet_background = none;
  activity_code = codes "0";
  twitter_username = none;
  facebook_username = none;
  discord_username = none;
  identifier = none;
  mail = none;
  google_id = none;
  microsoft_id = none;
  is_mail_verified = false;
  is_phone_verified = false;
  phone_number = none;
  paypal_id = none;
  account_number = none;
  device_id = none;
  social_id = none;
  cid = none;
  screen_cid = none;
  snowflake_id = none;
  stars = none;
  user_role = codes "user";
  token_time = none;
  balance = none;
  last_login = none;
  extra = none;
  created_at = codes "1";
  updated_at = codes "1";
}

abbrev service : CheckTokenApi Text Text
service = record {
  send = λ r. some (if text_eq r.authorization (codes "jwt") then codes "ada" else codes "nobody");
  read_json = some;
  from_value = λ v.
      if text_eq v (codes "ada")
      then some (record { user_data = named; message = []; status = 200; is_error = false })
      else none;
}

abbrev checkpoint : Checkpoint Text
checkpoint = record { user_data = some named; called_next = true; response = none }

token_checked :
    check_token http service (codes "http://gem") (some (codes "jwt")) true ≡ done checkpoint
unfolding check_token text_eq
token_checked = refl

check_token_calls_next_example :
    (jwt sent json_data : Text) × (answer : CheckTokenResponse Text) × (http.to_str (codes "jwt")
      ≡ some jwt)
    × (service.send (record {
      verb = Verb.get;
      url = codes "http://gem/health/check-token";
      authorization = jwt;
      body = none;
    })
        ≡ some sent)
    × (service.read_json sent ≡ some json_data)
    × (service.from_value json_data ≡ some answer)
    × (checkpoint.user_data ≡ some answer.user_data)
    × (checkpoint.response ≡ none)
check_token_calls_next_example =
    check_token_calls_next http service (codes "http://gem") (codes "jwt") true checkpoint
      token_checked refl

abbrev pub sealed_time : Text
sealed_time = show_i64 (pos 1060)

sealing :
    toy.secure_cell_encrypt
      (record { secret_key = secret; passphrase = secret; payload = show_i64 (pos 1060) })
    ≡ some sealed_time
unfolding show_i64
sealing = refl

token_unread : parse_i64 (http.to_base58 sealed_time) ≡ none
unfolding parse_i64 parse_digits
token_unread = refl

abbrev pub request : GenTokenQueries
request = record { exp = some (pos 60); scope = some (codes "write") }

abbrev pub write_key : Text
write_key = access_token_key (codes "write")

generate-verify_example :
    (t : List Entry) × (generate_access_token toy http secret
        (some secret)
        request
        true
        (pos 1000)
        []
      ≡ done (t, succeeded (http.to_base58 sealed_time)))
    × (verify_token_time toy (some (http.to_base58 sealed_time)) (codes "write") true t (pos 2000)
        ≡ done (ok (http.to_base58 sealed_time)))
    × (toy.ttl t write_key ≡ some 60)
    × (toy.get t (access_token_key (codes "read")) ≡ none)
unfolding text_eq
generate-verify_example =
    generate-verify toy http secret (codes "write") (pos 1000) (pos 1060) [] 60 sealed_time
      (omega arith) (omega arith) refl refl sealing token_unread 2000 (codes "read")

no_secret : none ≢ some secret
no_secret e = cc

refused_request :
    generate_access_token toy http secret none request true (pos 1000) (stored_token (codes "200"))
    ≡ done (stored_token (codes "200"), reject not_acceptable_status empty_header_secret_key)
unfolding generate_access_token check_secret
refused_request = refl
