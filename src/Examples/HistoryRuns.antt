-- ===== src/Examples/HistoryRuns.antt =====
-- A run of the server from an empty Redis: a token is asked for, an event is cached, and a request
-- with the token comes.
use hoopoe.Base.{
  Text, codes, List, [], ◌∷◌, true, false, none, some, ◌≡◌, refl, pos, done, text_eq, parse_i64,
  parse_digits, show_i64, as_u64,
}
use hoopoe.Models.{NotifData, zerlog}
use hoopoe.Access.Passport.{access_token_key, check_secret, check_time, verify_token_time}
use hoopoe.Access.Guard.{Passage, check_passport}
use hoopoe.Access.Token.{generate_access_token, store_token, succeeded}
use hoopoe.Access.History.{History, Reach, start, after, token_asked, events_cached}
use hoopoe.Access.HistoryLaws.{HandedOut, passed_token-HandedOut}
use hoopoe.Broker.{notif_owner_key}
use hoopoe.Broker.Cache.{write_events}
use hoopoe.Examples.Hex.{to_hex}
use hoopoe.Examples.Toy.{toy, http, Entry}
use hoopoe.Examples.ApiRuns.{answers}
use hoopoe.Examples.HubRuns.{forms}
use hoopoe.Examples.AccessRuns.{secret, sealed_time, request, write_key}

abbrev token : Text
token = http.to_base58 sealed_time

abbrev with_token : List Entry
with_token = record { key = write_key; value = token; expiry = some 60 } ∷ []

token_stored :
    generate_access_token toy http secret (some secret) request true (pos 1000) []
    ≡ done (with_token, succeeded token)
unfolding generate_access_token check_secret store_token text_eq show_i64 as_u64 access_token_key
token_stored = refl

abbrev event : NotifData
event = record {
  id = codes "1";
  receiver_info = codes "7";
  action_data = codes "{}";
  actioner_info = codes "8";
  action_type = zerlog;
  fired_at = pos 1;
  is_seen = false;
}

abbrev asked_for : History (List Entry)
asked_for = record {
  store = with_token;
  asked = record { header = some secret; params = request; response = succeeded token } ∷ [];
}

abbrev and_cached : History (List Entry)
and_cached = record asked_for { store = write_events toy with_token event (event ∷ []) 60 }

run : Reach toy http secret answers none forms (record { store = []; asked = [] }) and_cached
run =
    after
      (after start (
        token_asked (some secret) request true (pos 1000) with_token (succeeded token)
          token_stored))
      (events_cached event (event ∷ []) 60)

abbrev passage : Passage
passage = record {
  passport_verified = some true;
  passport_token_time = some token;
  skipped = false;
  response = none;
}

passes : check_passport toy (some token) true and_cached.store (pos 2000) ≡ done passage
unfolding check_passport verify_token_time check_time text_eq access_token_key parse_i64
    parse_digits write_events notif_owner_key show_i64 to_hex
passes = refl

passed_token-HandedOut_example :
    (t : Text) × (some token ≡ some t)
    × HandedOut toy http secret and_cached.asked (codes "write") t
passed_token-HandedOut_example =
    passed_token-HandedOut toy http secret answers none forms (λ scope. refl) run (some token) true
      (pos 2000) passage passes refl
