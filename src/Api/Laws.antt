-- ===== src/Api/Laws.antt =====
-- What a client gets from `get_notif` of src/apis/v1/http/notif.rs over the cached answers.
use hoopoe.Base.{
  ℕ, ◌<◌, ◌^◌, Text, List, [], ◌∷◌, ◌++◌, true, false, Option, none, some, text_eq_refl, done, ◌≡◌,
  refl, arith, ◌⊎◌, inl, inr,
}
use hoopoe.Models.{EventQuery}
use hoopoe.Service.{Services}
use hoopoe.Service.RedisLaws.{set_ex-some}
use hoopoe.Api.Accessor.{
  NotifDataResponse, AnswerApi, DbApi, select_of, is_reversed, last_page, owner_answer_key,
  cache_answer, answer_query, get_for_owner, answered,
}
use hoopoe.Api.Fetch.{Data, FetchEnv, success, report_of, cached_or, get_notif}

abbrev pub all_up : FetchEnv
all_up = record { pool_ok = true; accessor_up = true; accessor_pool_ok = true }

-- The rows of the last of some pages, and no rows if there is no page.
abbrev pub IsLastPage : {Row : Type 0} → List Row → List (List Row) → Type 0
IsLastPage {Row = Row} page found =
    ((found ≡ []) × (page ≡ [])) ⊎ ((earlier : List (List Row)) × (found ≡ earlier ++ page ∷ []))

last_page-append :
    {Row : Type 0} (rows page : List Row) (earlier : List (List Row))
    → last_page rows (earlier ++ page ∷ []) ≡ page
unfolding last_page
last_page-append rows page [] = refl
last_page-append rows page (first ∷ rest) = last_page-append first page rest

last_page_lem :
    {Row : Type 0} (page : List Row) (found : List (List Row))
    → IsLastPage page found
    → last_page [] found ≡ page
unfolding last_page
last_page_lem page found (inl (e, e')) = rw (e, e') refl
last_page_lem page found (inr (earlier, e)) = rw e (last_page-append [] page earlier)

module _ (V : Services) {Row : Type 0} (W : AnswerApi Row) where
  -- An answer in the cache is given without a question to the database.
  get_notif-cached :
      (exp : Option ℕ) (D : DbApi Row) (env : FetchEnv) (query : EventQuery) (owner : Text)
      (s : V.Store) (answer : NotifDataResponse Row)
      → query.id ≡ none
      → query.owner ≡ some owner
      → env.pool_ok ≡ true
      → V.get s (owner_answer_key owner) ≡ some (W.encode_answer answer)
      → get_notif V W exp D env query s ≡ done (s, success (Data.list (some answer)))
  unfolding get_notif cached_or
  get_notif-cached exp D env query owner s answer i o p found = ground (
    arith,
    i,
    o,
    p,
    found,
    V.exists-get s (owner_answer_key owner),
    W.decode-encode_answer answer,
  )

  module _ (n : ℕ) (D : DbApi Row) (query : EventQuery) (owner : Text) (s : V.Store)
      (items pages cur : ℕ) (found : List (List Row)) (page : List Row) where
    abbrev pub first_answer : NotifDataResponse Row
    first_answer = record { notifs = page; items = items; pages = pages; current_page = cur }

    asked :
        (t : V.Store)
        → IsLastPage page found
        → query.id ≡ none
        → query.owner ≡ some owner
        → V.get s (owner_answer_key owner) ≡ none
        → is_reversed (report_of query) ≡ false
        → D.num_items_and_pages (select_of (some owner) (report_of query)) ≡ some (items, pages)
        → D.fetch (select_of (some owner) (report_of query)) ≡ some (found, cur)
        → V.set_ex s (owner_answer_key owner) (W.encode_answer first_answer) n ≡ some t
        → get_notif V W (some n) D all_up query s
          ≡ done (t, success (Data.list (some first_answer)))
    unfolding get_notif cached_or get_for_owner answer_query cache_answer answered
    asked t last i o absent forward counted fetched e = ground (
      arith,
      last_page_lem page found last,
      i,
      o,
      absent,
      forward,
      counted,
      fetched,
      e,
      V.exists-get s (owner_answer_key owner),
    )

    -- A first request for an owner's notifications, with the range in order and everything up, is
    -- answered with the last of the pages that match alone, or nothing if none does. The next request for the owner
    -- gets that answer again, whatever range and page size it asks for and whatever the database
    -- holds by then, and Redis stays as it is.
    pub first_answer_stays :
        IsLastPage page found
        → 0 < n
        → n < 2 ^ 31
        → query.id ≡ none
        → query.owner ≡ some owner
        → V.get s (owner_answer_key owner) ≡ none
        → is_reversed (report_of query) ≡ false
        → D.num_items_and_pages (select_of (some owner) (report_of query)) ≡ some (items, pages)
        → D.fetch (select_of (some owner) (report_of query)) ≡ some (found, cur)
        → (later : DbApi Row) (again : EventQuery) → again.id ≡ none
        → again.owner ≡ some owner
        → (t : V.Store) × (get_notif V W (some n) D all_up query s
            ≡ done (t, success (Data.list (some first_answer))))
          × (V.ttl t (owner_answer_key owner) ≡ some n)
          × (get_notif V W (some n) later all_up again t
              ≡ done (t, success (Data.list (some first_answer))))
    first_answer_stays last p small i o absent forward counted fetched later again i' o' =
        let key = owner_answer_key owner in
        let text = W.encode_answer first_answer in
        let (t, e) = set_ex-some V s key text n p small in
        (
          t,
          asked t last i o absent forward counted fetched e,
          ground (arith, V.ttl-set_ex s t key text n key e, text_eq_refl key),
          get_notif-cached (some n) later all_up again owner t first_answer i' o' refl
              (ground (arith, V.get-set_ex s t key text n key e, text_eq_refl key)),
        )
