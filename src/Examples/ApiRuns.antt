-- ===== src/Examples/ApiRuns.antt =====
-- The theorems on `get_notif` of src/apis/v1/http/notif.rs at concrete inputs. A row is its number.
use hoopoe.Base.{
  inr, ℕ, Text, codes, List, [], ◌∷◌, Option, none, some, ◌≡◌, refl, arith, done, false,
}
use hoopoe.Models.{EventQuery}
use hoopoe.Api.Accessor.{
  NotifDataResponse, AnswerApi, DbApi, last_page, owner_answer_key, is_reversed, get_all,
  answer_query, cache_answer, answered,
}
use hoopoe.Api.Fetch.{Data, success, report_of, get_notif, get_notifs, cached_or}
use hoopoe.Api.Laws.{first_answer_stays, all_up}
use hoopoe.Api.Uncached.{all_answer_never_found}
use hoopoe.Examples.Toy.{toy, Entry}

abbrev encode_answer : NotifDataResponse ℕ → Text
encode_answer r = r.items ∷ r.pages ∷ r.current_page ∷ r.notifs

abbrev decode_answer : Text → Option (NotifDataResponse ℕ)
decode_answer (items ∷ pages ∷ current_page ∷ notifs) =
    some (record { notifs = notifs; items = items; pages = pages; current_page = current_page })
decode_answer _ = none

pub decode-encode : (r : NotifDataResponse ℕ) → decode_answer (encode_answer r) ≡ some r
decode-encode r = refl

abbrev pub answers : AnswerApi ℕ
answers = record {
  encode_answer = encode_answer;
  decode_answer = decode_answer;
  decode-encode_answer = decode-encode;
}

-- A database with three rows in two pages, and an empty one.
abbrev three_rows : DbApi ℕ
three_rows = record {
  by_id = λ id. some 5;
  num_items_and_pages = λ q. some (3, 2);
  fetch = λ q. some ((5 ∷ 6 ∷ []) ∷ (7 ∷ []) ∷ [], 3);
}

abbrev no_rows : DbApi ℕ
no_rows = record {
  by_id = λ id. none;
  num_items_and_pages = λ q. some (0, 0);
  fetch = λ q. some ([], 1);
}

abbrev query : EventQuery
query = record {
  owner = some (codes "7");
  id = none;
  room = none;
  from = some 0;
  to = some 2;
  page_size = some 2;
}

abbrev everything : EventQuery
everything = record query { owner = none }

abbrev last_answer : NotifDataResponse ℕ
last_answer = record { notifs = 7 ∷ []; items = 3; pages = 2; current_page = 3 }

in_order : is_reversed (report_of query) ≡ false
unfolding is_reversed report_of
in_order = refl

first_answer_stays_example :
    (t : List Entry) × (get_notif toy answers (some 60) three_rows all_up query []
      ≡ done (t, success (Data.list (some last_answer))))
    × (toy.ttl t (owner_answer_key (codes "7")) ≡ some 60)
    × (get_notif toy answers
          (some 60)
          no_rows
          all_up
          (record query { from = some 4; to = some 9 })
          t
        ≡ done (t, success (Data.list (some last_answer))))
first_answer_stays_example =
    first_answer_stays toy answers 60 three_rows query (codes "7") [] 3 2 3
      ((5 ∷ 6 ∷ []) ∷ (7 ∷ []) ∷ []) (7 ∷ []) (inr ((5 ∷ 6 ∷ []) ∷ [], refl)) (omega arith)
      (omega arith) refl refl refl in_order refl refl no_rows
      (record query { from = some 4; to = some 9 }) refl refl

abbrev all_key : Text
all_key = codes "all_notif_api_resp"

abbrev all_stored : List Entry
all_stored = record { key = all_key; value = encode_answer last_answer; expiry = some 60 } ∷ []

one_request :
    get_notifs toy answers (some 60) ((three_rows, all_up, everything) ∷ []) [] ≡ done all_stored
unfolding get_notifs get_notif cached_or answered get_all is_reversed report_of answer_query
    cache_answer last_page
one_request = refl

all_answer_never_found_example : toy.get all_stored (codes "all_notifs_api_resp") ≡ none
all_answer_never_found_example =
    all_answer_never_found toy answers (some 60) ((three_rows, all_up, everything) ∷ []) []
      all_stored refl one_request
