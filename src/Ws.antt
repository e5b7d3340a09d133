-- ===== src/Ws.antt =====
-- src/server/mod.rs, `HoopoeWsServerActor`, with the maps of src/constants/mod.rs. Each user has an
-- outbox: the texts that were put into the sender of the user's socket. `waiting` are the sessions
-- that want the lock on the notification receiver, in order; the first one has it, and keeps it.
use hoopoe.Base.{
  ℕ, zero, suc, ◌+◌, ◌%◌, ◌^◌, Text, codes, List, [], ◌∷◌, ◌++◌, Bool, true, false, not, ◌||◌,
  Option, none, some, if◌then◌else◌, ◌==◌, text_eq, Outcome, done, panic, ◌>>=◌, unwrap, pos,
  parse_usize, show_i64, is_some,
}
use hoopoe.Models.{NotifData, EventQuery}
use hoopoe.Service.{Services}
pub mod Laws
pub mod Ids
pub mod Upgrade

pub record User : Type 0 where
  pub id : ℕ
  pub outbox : List Text

pub record Room : Type 0 where
  pub name : Text
  pub members : List ℕ

-- A session's task for notifications: its user and the query's owner.
pub record Listener : Type 0 where
  pub user_id : ℕ
  pub owner : Option Text

pub record Hub : Type 0 where
  pub online : List User
  pub rooms : List Room
  pub next_id : ℕ
  pub waiting : List Listener

unfoldable pub outbox_of : ℕ → List User → Option (List Text)
outbox_of id [] = none
outbox_of id (u ∷ us) = if u.id == id then some u.outbox else outbox_of id us

unfoldable pub remove_user : ℕ → List User → List User
remove_user id [] = []
remove_user id (u ∷ us) = let rest = remove_user id us in if u.id == id then rest else u ∷ rest

unfoldable pub add_member : ℕ → List ℕ → List ℕ
add_member id [] = id ∷ []
add_member id (m ∷ ms) = let rest = add_member id ms in if m == id then m ∷ ms else m ∷ rest

-- The entry of the room, with a first member or one more.
unfoldable pub add_to_room : ℕ → Text → List Room → List Room
unfolding add_member
add_to_room id room [] = record { name = room; members = id ∷ [] } ∷ []
add_to_room id room (r ∷ rs) =
    let rest = add_to_room id room rs in
    if text_eq r.name room then record r { members = add_member id r.members } ∷ rs else r ∷ rest

unfoldable pub has_room : Text → List Room → Bool
has_room room [] = false
has_room room (r ∷ rs) = text_eq r.name room || has_room room rs

-- `session_handler` before its tasks: none is a session that ends at once, for the owner's number is
-- the id of a user online. Otherwise the session gets the next id, and its listener asks for the lock.
unfoldable pub session_handler : EventQuery → Hub → Outcome (Hub × Option ℕ)
session_handler query s = do
  owner ← unwrap query.owner
  user_id ← unwrap (parse_usize owner)
  done (
      if is_some (outbox_of user_id s.online) then (s, none) else (
        record s {
          next_id = (s.next_id + 1) % 2 ^ 64;
          waiting = s.waiting ++ record { user_id = s.next_id; owner = query.owner } ∷ [];
        },
        some s.next_id,
      ))

-- The session's first task: the user goes online, with an empty outbox.
unfoldable pub enter_online : ℕ → Hub → Hub
unfolding remove_user
enter_online id s = record s { online = record { id = id; outbox = [] } ∷ remove_user id s.online }

abbrev pub room_of : EventQuery → Text
room_of query = elim query.room [ none ↦ codes "notifs" | some room ↦ room ]

-- The task that puts the user into the room.
unfoldable pub enter_room : ℕ → Text → Hub → Hub
enter_room id room s = record s { rooms = add_to_room id room s.rooms }

unfoldable pub message_text : ℕ → Text → Text → Text
message_text id room msg =
    codes "<User#" ++ show_i64 (pos id) ++ codes "> in <Room#" ++ room ++ codes ">: " ++ msg

unfoldable pub send_to_others : ℕ → Text → List User → List User
send_to_others my_id text [] = []
send_to_others my_id text (u ∷ us) =
    (if not (my_id == u.id) then record u { outbox = u.outbox ++ text ∷ [] } else u)
    ∷ send_to_others my_id text us

-- No `msg` is a message that is no text.
unfoldable pub send_message_to_ws_users_in_room : ℕ → Option Text → Text → Hub → Hub
unfolding send_to_others message_text
send_message_to_ws_users_in_room my_id none this_room s = s
send_message_to_ws_users_in_room my_id (some msg) this_room s = record s {
  online = send_to_others my_id (message_text my_id this_room msg) s.online;
}

-- The user leaves a clone of the room's set, which is then dropped, and the users online.
unfoldable pub user_disconnected : ℕ → Text → Hub → Outcome Hub
unfolding remove_user has_room
user_disconnected user_id room s =
    if has_room room s.rooms
    then done (record s { online = remove_user user_id s.online })
    else panic

unfoldable pub send_to_user : ℕ → Text → List User → List User
send_to_user id text [] = []
send_to_user id text (u ∷ us) =
    (if u.id == id then record u { outbox = u.outbox ++ text ∷ [] } else u)
    ∷ send_to_user id text us

abbrev pub wants : Listener → NotifData → Bool
wants l event = elim l.owner [ none ↦ false | some owner ↦ text_eq event.receiver_info owner ]

-- One text out of the notification channel: the listener with the lock takes it. One that is no
-- notification ends the listener, which gives the lock to the next.
unfoldable pub receive : (V : Services) → Text → Hub → Hub
unfolding send_to_user
receive V text s = elim s.waiting [
  | [] ↦ s
  | l ∷ later ↦ elim (V.decode_notif text) [
    | none ↦ record s { waiting = later }
    | some event ↦
        if wants l event then record s { online = send_to_user l.user_id text s.online } else s
  ]
]

unfoldable pub receive_all : (V : Services) → List Text → Hub → Hub
receive_all V [] s = s
receive_all V (text ∷ texts) s = receive_all V texts (receive V text s)
