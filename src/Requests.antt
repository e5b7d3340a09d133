-- ===== src/Requests.antt =====
-- src/requests/mod.rs: `Fetch`, over an HTTP client and its decoding of JSON.
use hoopoe.Base.{Text, ◌++◌, Option, none, some, Outcome, ◌>>=◌, unwrap}

pub data Verb : Type 0 where
  get delete put patch post : Verb

pub record Fetch : Type 0 where
  pub path : Text
  pub auth_token : Text
  pub base_url : Text

unfoldable pub builder : Text → Text → Text → Fetch
builder path auth_token base_url = record {
  path = path;
  auth_token = auth_token;
  base_url = base_url;
}

pub record HttpRequest (Value : Type 0) : Type 0 where
  pub verb : Verb
  pub url : Text
  pub authorization : Text
  pub body : Option Value

module _ {Value Answer : Type 0} (send : HttpRequest Value → Option Answer)
    (read_json : Answer → Option Value) where
  fetch : Verb → Option Value → Fetch → Outcome Value
  fetch verb body f = do
    answer ← unwrap (
        send (record {
          verb = verb;
          url = f.base_url ++ f.path;
          authorization = f.auth_token;
          body = body;
        }))
    unwrap (read_json answer)

  unfoldable pub fetch_get : Fetch → Outcome Value
  unfolding fetch
  fetch_get f = fetch get none f

  unfoldable pub fetch_delete : Value → Fetch → Outcome Value
  unfolding fetch
  fetch_delete body f = fetch delete (some body) f

  unfoldable pub fetch_put : Value → Fetch → Outcome Value
  unfolding fetch
  fetch_put body f = fetch put (some body) f

  unfoldable pub fetch_patch : Value → Fetch → Outcome Value
  unfolding fetch
  fetch_patch body f = fetch patch (some body) f

  unfoldable pub fetch_post : Value → Fetch → Outcome Value
  unfolding fetch
  fetch_post body f = fetch post (some body) f
