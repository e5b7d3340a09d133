-- ===== src/Api/Accessor.antt =====
-- src/workers/cqrs/accessors/notif.rs: the queries and their handlers. Recorded errors are left out.
use hoopoe.Base.{
  ℕ, ◌+◌, ◌-◌, ◌%◌, ◌^◌, Text, codes, List, [], ◌∷◌, ◌++◌, Bool, Option, none, some, if◌then◌else◌,
  ltb, ℤ, ◌≡◌, Outcome, done, panic, ◌>>=◌, unwrap,
}
use hoopoe.Service.{Services}
use hoopoe.Access.Passport.{or_default}

pub record NotifDataResponse (Row : Type 0) : Type 0 where
  pub notifs : List Row
  pub items : ℕ
  pub pages : ℕ
  pub current_page : ℕ

-- serde_json on an answer; `Some` of it is written as itself.
pub record AnswerApi (Row : Type 0) : Type 0 where
  pub encode_answer : NotifDataResponse Row → Text
  pub decode_answer : Text → Option (NotifDataResponse Row)
  pub decode-encode_answer : (r : NotifDataResponse Row) → decode_answer (encode_answer r) ≡ some r

-- What the query is built from; `contains` is the filter on the receiver, which takes only what is
-- not seen.
pub record Select : Type 0 where
  pub contains : Option Text
  pub limit : ℕ
  pub offset : ℕ
  pub page_size : ℕ

-- The database at one time, through sea-orm: a row by its id, the numbers of items and of pages, and
-- the pages that `fetch_and_next` gives until it gives none, with the paginator's page after that.
-- `none` is an error, in `fetch` also the panic on a page size of 0.
pub record DbApi (Row : Type 0) : Type 0 where
  pub by_id : ℤ → Option Row
  pub num_items_and_pages : Select → Option (ℕ × ℕ)
  pub fetch : Select → Option (List (List Row) × ℕ)

-- Each page replaces the one before.
unfoldable pub last_page : {Row : Type 0} → List Row → List (List Row) → List Row
last_page rows [] = rows
last_page rows (page ∷ pages) = last_page page pages

pub record RequestNotifData : Type 0 where
  pub from : Option ℕ
  pub to : Option ℕ
  pub page_size : Option ℕ

unfoldable pub select_of : Option Text → RequestNotifData → Select
select_of contains report =
    let from = or_default 0 report.from in
    let to = or_default 10 report.to in
    record {
      contains = contains;
      limit = (to - from + 1) % 2 ^ 64;
      offset = from;
      page_size = or_default 10 report.page_size;
    }

unfoldable pub is_reversed : RequestNotifData → Bool
is_reversed report = ltb (or_default 10 report.to) (or_default 0 report.from)

unfoldable pub owner_answer_key : Text → Text
owner_answer_key owner = codes "notif_owner_api_resp:" ++ owner

module _ (V : Services) {Row : Type 0} (W : AnswerApi Row) (exp : Option ℕ) where
  -- `exp` is the number in the environment's REDIS_SESSION_EXP_KEY.
  unfoldable pub cache_answer : Text → NotifDataResponse Row → V.Store → Outcome V.Store
  cache_answer key answer s =
      if V.exists s key
      then done (V.set s key (W.encode_answer answer))
      else (unwrap exp >>= λ seconds. unwrap (V.set_ex s key (W.encode_answer answer) seconds))

  -- The query, its answer and its caching, as both methods have them.
  unfoldable pub answer_query :
      DbApi Row
      → Select
      → Bool
      → Text
      → V.Store
      → Outcome (V.Store × Option (NotifDataResponse Row))
  unfolding last_page cache_answer
  answer_query D select pool_ok key s = elim (D.num_items_and_pages select) [
    | none ↦ done (s, none)
    | some (items, count) ↦ unwrap (D.fetch select) >>= λ found.
        (if pool_ok
          then (let answer : NotifDataResponse Row = record {
            notifs = last_page [] found.0;
            items = items;
            pages = count;
            current_page = found.1;
          } in
              cache_answer key answer s >>= λ t. done (t, some answer))
          else done (s, none))
  ]

  unfoldable pub get_for_owner :
      DbApi Row
      → Option Text
      → RequestNotifData
      → Bool
      → V.Store
      → Outcome (V.Store × Option (NotifDataResponse Row))
  unfolding answer_query select_of is_reversed owner_answer_key
  get_for_owner D owner report pool_ok s =
      if is_reversed report
      then done (s, none)
      else answer_query D (select_of (some (or_default [] owner)) report) pool_ok
          (owner_answer_key (or_default [] owner)) s

  unfoldable pub get_all :
      DbApi Row
      → RequestNotifData
      → Bool
      → V.Store
      → Outcome (V.Store × Option (NotifDataResponse Row))
  unfolding answer_query select_of is_reversed
  get_all D report pool_ok s =
      if is_reversed report
      then done (s, none)
      else answer_query D (select_of none report) pool_ok (codes "all_notif_api_resp") s

  -- The handlers run the method in a task; a task that panics closes the channel, and the answer is
  -- none. A panic comes before anything is written.
  unfoldable pub answered :
      V.Store
      → Outcome (V.Store × Option (NotifDataResponse Row))
      → V.Store × Option (NotifDataResponse Row)
  answered s panic = (s, none)
  answered s (done result) = result
