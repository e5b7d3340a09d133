-- ===== src/Api/Fetch.antt =====
-- src/apis/v1/http/notif.rs, `get_notif`.
use hoopoe.Base.{
  ℕ, Text, codes, Bool, true, false, Option, none, some, if◌then◌else◌, Outcome, done, ◌>>=◌,
  unwrap, List, [], ◌∷◌,
}
use hoopoe.Models.{EventQuery, ok_status, internal_server_error_status}
use hoopoe.Service.{Services}
use hoopoe.Api.Accessor.{
  NotifDataResponse, AnswerApi, DbApi, RequestNotifData, owner_answer_key, get_for_owner, get_all,
  answered,
}

pub data Data (Row : Type 0) : Type 0 where
  nothing : Data Row
  one : Option Row → Data Row
  list : Option (NotifDataResponse Row) → Data Row

pub record ApiResponse (Row : Type 0) : Type 0 where
  pub status : ℕ
  pub is_err : Bool
  pub content : Data Row

-- Whether the pool gives the handler a connection, the accessor actor takes messages, and the pool
-- gives the accessor one.
pub record FetchEnv : Type 0 where
  pub pool_ok : Bool
  pub accessor_up : Bool
  pub accessor_pool_ok : Bool

unfoldable pub success : {Row : Type 0} → Data Row → ApiResponse Row
success content = record { status = ok_status; is_err = false; content = content }

unfoldable pub failure_answer : {Row : Type 0} → ApiResponse Row
failure_answer = record {
  status = internal_server_error_status;
  is_err = true;
  content = Data.nothing;
}

unfoldable pub report_of : EventQuery → RequestNotifData
report_of query = record { from = query.from; to = query.to; page_size = query.page_size }

module _ (V : Services) {Row : Type 0} (W : AnswerApi Row) (exp : Option ℕ) where
  -- The answer in the cache under the key, or the accessor's.
  unfoldable pub cached_or :
      FetchEnv
      → Text
      → (V.Store → Outcome (V.Store × Option (NotifDataResponse Row)))
      → V.Store
      → Outcome (V.Store × ApiResponse Row)
  unfolding success failure_answer answered
  cached_or env key ask s =
      if env.pool_ok
      then (if V.exists s key
          then (unwrap (V.get s key) >>= λ text. unwrap (W.decode_answer text) >>= λ decoded.
              done (s, success (Data.list (some decoded))))
          else (if env.accessor_up
              then (let (t, answer) = answered V W exp s (ask s) in
                  done (t, success (Data.list answer)))
              else done (s, failure_answer)))
      else done (s, failure_answer)

  -- The requests for one owner's notifications, and for all.
  unfoldable pub get_owner_notifs :
      DbApi Row → FetchEnv → EventQuery → Text → V.Store → Outcome (V.Store × ApiResponse Row)
  unfolding cached_or report_of
  get_owner_notifs D env query owner =
      cached_or env (owner_answer_key owner)
        (get_for_owner V W exp D (some owner) (report_of query) env.accessor_pool_ok)

  unfoldable pub get_all_notifs :
      DbApi Row → FetchEnv → EventQuery → V.Store → Outcome (V.Store × ApiResponse Row)
  unfolding cached_or report_of
  get_all_notifs D env query =
      cached_or env (codes "all_notifs_api_resp")
        (get_all V W exp D (report_of query) env.accessor_pool_ok)

  unfoldable pub get_notif :
      DbApi Row → FetchEnv → EventQuery → V.Store → Outcome (V.Store × ApiResponse Row)
  unfolding get_owner_notifs get_all_notifs success failure_answer
  get_notif D env query s = elim query.id [
    | some id ↦
        done (s, if env.accessor_up then success (Data.one (D.by_id id)) else failure_answer)
    | none ↦ elim query.owner [
      | some owner ↦ get_owner_notifs D env query owner s
      | none ↦ get_all_notifs D env query s
    ]
  ]

  -- Requests one after the other, each with the database at its time.
  unfoldable pub get_notifs : List (DbApi Row × FetchEnv × EventQuery) → V.Store → Outcome V.Store
  get_notifs [] s = done s
  get_notifs ((D, env, query) ∷ rest) s = get_notif D env query s >>= λ r. get_notifs rest r.0
