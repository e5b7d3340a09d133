-- ===== src/Api/Uncached.antt =====
-- Which answers of src/apis/v1/http/notif.rs, `get_notif`, never come from the cache.
use hoopoe.Base.{
  ℕ, Text, codes, List, [], ◌∷◌, false, Option, none, text_eq, Outcome, done, panic, ◌>>=◌, ◌≡◌,
  refl, ◌∙◌, arith,
}
use hoopoe.Models.{EventQuery}
use hoopoe.Service.{Services}
use hoopoe.Api.Accessor.{AnswerApi, DbApi, owner_answer_key}
use hoopoe.Api.Fetch.{ApiResponse, FetchEnv, get_notif, get_notifs}
use hoopoe.Api.Untouched.{Kept, get_notif-Kept}

module _ (V : Services) {Row : Type 0} (W : AnswerApi Row) where
  module _ (exp : Option ℕ) where
    abbrev read_key : Text
    read_key = codes "all_notifs_api_resp"

    owner_key_differs : (owner : Text) → text_eq (owner_answer_key owner) read_key ≡ false
    unfolding owner_answer_key text_eq
    owner_key_differs owner = refl

    all_key_differs : text_eq (codes "all_notif_api_resp") read_key ≡ false
    unfolding text_eq
    all_key_differs = refl

    after_one :
        (o : Outcome (V.Store × ApiResponse Row)) (s t : V.Store)
        (go_on : V.Store → Outcome V.Store)
        → Kept V W exp read_key s o
        → V.get s read_key ≡ none
        → ((u : V.Store) → V.get u read_key ≡ none → go_on u ≡ done t → V.get t read_key ≡ none)
        → (o >>= λ r. go_on r.0) ≡ done t
        → V.get t read_key ≡ none
    after_one panic s t go_on kept absent rest e = cc
    after_one (done r) s t go_on kept absent rest e = rest r.0 (kept ∙ absent) e

    -- The answer to a request for all notifications is never read from the cache, as it is cached
    -- under another key than the one that is looked up: no sequence of requests, whatever they ask
    -- for and whoever answers, gives that key a value.
    pub all_answer_never_found :
        (requests : List (DbApi Row × FetchEnv × EventQuery)) (s t : V.Store)
        → V.get s (codes "all_notifs_api_resp") ≡ none
        → get_notifs V W exp requests s ≡ done t
        → V.get t (codes "all_notifs_api_resp") ≡ none
    unfolding get_notifs
    all_answer_never_found [] s t absent e = ground (arith, absent)
    all_answer_never_found ((D, env, query) ∷ rest) s t absent e =
        after_one (get_notif V W exp D env query s) s t (get_notifs V W exp rest)
          (get_notif-Kept V W exp read_key owner_key_differs all_key_differs D env query s) absent
          (λ u absent' e'. all_answer_never_found rest u t absent' e') e
