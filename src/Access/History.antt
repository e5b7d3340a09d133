-- ===== src/Access/History.antt =====
-- How the tokens in Redis develop while the server runs: the requests of src/apis/v1/http/auth.rs,
-- between everything else that the server writes to Redis, and keys that expire.
use hoopoe.Base.{ℕ, ℤ, Text, List, ◌∷◌, Bool, Option, none, done, ◌≡◌, ◌⊎◌}
use hoopoe.Models.{NotifData, EventQuery, SecureCellConfig, Response}
use hoopoe.Service.{Services}
use hoopoe.Service.Http.{HttpApi}
use hoopoe.Access.Token.{GenTokenQueries, generate_access_token}
use hoopoe.Api.Accessor.{AnswerApi, DbApi}
use hoopoe.Api.Fetch.{ApiResponse, FetchEnv, get_notif}
use hoopoe.Broker.{World, Kind}
use hoopoe.Broker.Cache.{write_events}
use hoopoe.Broker.Publish.{leave_config}
use hoopoe.Hoop.Add.{FormApi, HoopEventForm, add_hoop}

-- A request for a token that was answered: its header, its parameters and the answer.
pub record Asked : Type 0 where
  pub header : Option Text
  pub params : GenTokenQueries
  pub response : Response

-- What is in Redis, and the requests for tokens so far, the last one first.
pub record History (Store : Type 0) : Type 0 where
  pub store : Store
  pub asked : List Asked

module _ (V : Services) (H : HttpApi) (secret : Text) {Row : Type 0} (W : AnswerApi Row)
    (exp : Option ℕ) (F : FormApi) where
  -- What can happen next: a request for a token, one for notifications, one that adds a hoop, the
  -- write of a consumer's cache step, the configuration that a producer leaves, or keys expire.
  pub data Step (h : History V.Store) : History V.Store → Type 0 where
    token_asked :
        (header : Option Text) (params : GenTokenQueries) (pool_ok : Bool) (now : ℤ) (t : V.Store)
        (r : Response)
        → generate_access_token V H secret header params pool_ok now h.store ≡ done (t, r)
        → Step h (record {
          store = t;
          asked = record { header = header; params = params; response = r } ∷ h.asked;
        })
    notifs_asked :
        (D : DbApi Row) (env : FetchEnv) (query : EventQuery) (t : V.Store) (r : ApiResponse Row)
        → get_notif V W exp D env query h.store ≡ done (t, r)
        → Step h (record h { store = t })
    hoop_added :
        (form : HoopEventForm) (today : ℕ) (t : V.Store) (r : Option Response)
        → add_hoop V F form today h.store ≡ done (t, r)
        → Step h (record h { store = t })
    events_cached :
        (event : NotifData) (events : List NotifData) (seconds : ℕ)
        → Step h (record h { store = write_events V h.store event events seconds })
    config_left :
        (kind : Kind) (config : SecureCellConfig) (unique_key : Text) (w : World V.Store)
        → w.store ≡ h.store
        → Step h (record h { store = (leave_config V kind config unique_key w).store })
    keys_expired :
        (t : V.Store)
        → ((key : Text) → (V.get t key ≡ none) ⊎ (V.get t key ≡ V.get h.store key))
        → Step h (record h { store = t })

  pub data Reach (h : History V.Store) : History V.Store → Type 0 where
    start : Reach h h
    after : {g k : History V.Store} → Reach h g → Step g k → Reach h k
