-- ===== src/Examples/HubRuns.antt =====
-- The theorems on src/server/mod.rs, on a hoop's end and on the buffer at concrete inputs.
use hoopoe.Base.{
  ℕ, Text, codes, List, [], ◌∷◌, Bool, true, false, Option, none, some, ◌≡◌, refl, pos, negsuc, ℤ,
  arith, ◌/◌, done, parse_i64, parse_usize, parse_digits, no_sep, starts_with,
}
use hoopoe.Models.{EventQuery}
use hoopoe.Ws.{session_handler, User, Listener, Hub, outbox_of, send_message_to_ws_users_in_room}
use hoopoe.Ws.Ids.{accept, Reach, start, after, Distinct, accepted-Distinct}
use hoopoe.Hoop.Add.{HoopEventForm, FormApi, hoop_key}
use hoopoe.Hoop.Schedule.{hoop_title, HoopRow, Subscription, subscribe_to_redis_exp_channel}
use hoopoe.Hoop.Laws.{hoop_title-hoop_key, IsReadable, expired_hoops_stay_unfinished}
use hoopoe.Storage.Buffer.{Buffer, new_buffer}
use hoopoe.Storage.BufferLaws.{push_all}
use hoopoe.Examples.Toy.{toy}
use hoopoe.Examples.Wire.{encode_notif}
use hoopoe.Examples.BrokerRuns.{notif, other_notif}

abbrev user_one : User
user_one = record { id = 1; outbox = [] }

abbrev user_two : User
user_two = record { id = 2; outbox = codes "x" ∷ [] }

abbrev first_listener : Listener
first_listener = record { user_id = 1; owner = some (codes "7") }

abbrev second_listener : Listener
second_listener = record { user_id = 2; owner = some (codes "9") }

abbrev hub : Hub
hub = record {
  online = user_one ∷ user_two ∷ [];
  rooms = [];
  next_id = 3;
  waiting = first_listener ∷ second_listener ∷ [];
}

abbrev greeted : Hub
greeted = send_message_to_ws_users_in_room 1 (some (codes "hi")) (codes "notifs") hub

abbrev sent_texts : List Text
sent_texts = encode_notif other_notif ∷ encode_notif notif ∷ []

plain_title : no_sep b'_' (codes "jazz") ≡ true
plain_title = refl

hoop_title-hoop_key_example :
    (hoop_title (hoop_key (codes "jazz") (codes "100")) ≡ done (codes "jazz"))
    × (hoop_title (hoop_key (codes "jazz_night") (codes "100")) ≡ done (codes "jazz"))
hoop_title-hoop_key_example =
    hoop_title-hoop_key (codes "jazz") (codes "night") (codes "100") plain_title

abbrev form : HoopEventForm
form = record {
  title = codes "jazz";
  started_at = codes "900";
  end_at = codes "800";
  invitations = codes "[]";
  has_cover = true;
}

-- Days of a hundred seconds.
abbrev day_of : ℤ → Option ℕ
day_of (pos n) = some (n / 100)
day_of (negsuc n) = none

abbrev pub forms : FormApi
forms = record { day_of = day_of; reads_invitations = λ t. true }

readable : IsReadable forms form (pos 900) (pos 800) 8
unfolding parse_i64 parse_digits
readable = record { cover = refl; invited = refl; starts = refl; ends = refl; day = refl }

abbrev form_key : Text
form_key = hoop_key (codes "jazz") (codes "900")

abbrev like : Text → Text → Bool
like title part = starts_with title part

abbrev jazz_row : HoopRow
jazz_row = record { title = codes "jazz"; is_finished = false }

abbrev listening_now : Subscription
listening_now = record { db = jazz_row ∷ []; sent = []; listening = true }

expired_hoops_stay_unfinished_example :
    subscribe_to_redis_exp_channel like
      (hoop_key (codes "jazz") (codes "900") ∷ hoop_key (codes "folk") (codes "1") ∷ [])
      listening_now
    ≡ record { db = jazz_row ∷ []; sent = codes "jazz" ∷ codes "folk" ∷ []; listening = true }
expired_hoops_stay_unfinished_example =
    expired_hoops_stay_unfinished like
      ((codes "jazz", codes "900") ∷ (codes "folk", codes "1") ∷ []) listening_now
      (refl, (refl, tt)) refl

hoop_prefix : starts_with (codes "hoops") (codes "hoop") ≡ true
unfolding starts_with
hoop_prefix = refl

no_hoop_prefix : starts_with (codes "notif_owner:7") (codes "hoop") ≡ false
unfolding starts_with
no_hoop_prefix = refl

empty_prefix : starts_with (codes "jazz") [] ≡ true
unfolding starts_with
empty_prefix = refl

abbrev empty_hub : Hub
empty_hub = record { online = []; rooms = []; next_id = 1; waiting = [] }

abbrev join_query : EventQuery
join_query = record {
  owner = some (codes "7");
  id = none;
  room = none;
  from = none;
  to = none;
  page_size = none;
}

abbrev joined : Hub
joined = record empty_hub {
  next_id = 2;
  waiting = record { user_id = 1; owner = some (codes "7") } ∷ [];
}

join_accepted : session_handler join_query empty_hub ≡ done (joined, some 1)
unfolding session_handler parse_usize parse_digits outbox_of
join_accepted = refl

one_joined :
    Reach toy
      (record { hub = empty_hub; accepted = [] })
      (record { hub = joined; accepted = 1 ∷ [] })
one_joined = after start (accept join_query joined 1 join_accepted)

accepted-Distinct_example : Distinct toy (1 ∷ []) × (joined.next_id ≡ 2)
accepted-Distinct_example =
    accepted-Distinct toy (record { hub = joined; accepted = 1 ∷ [] }) one_joined (omega arith)

abbrev three_pushed : Buffer ℕ × ℕ
three_pushed = push_all (7 ∷ 8 ∷ 9 ∷ []) (new_buffer 1) 0
