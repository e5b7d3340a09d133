-- ===== src/Ws/Laws.antt =====
-- Who receives what from the websocket server of src/server/mod.rs.
use hoopoe.Base.{
  ℕ, Text, List, [], ◌∷◌, ◌++◌, true, Option, none, some, if◌then◌else◌, ◌==◌, text_eq_refl, done,
  ◌≡◌, refl, arith, is_some,
}
use mathlib.Core.Option
use hoopoe.Service.{Services}
use hoopoe.Ws.{
  User, Room, Listener, Hub, outbox_of, remove_user, has_room, add_to_room, enter_room,
  message_text, send_to_others, send_message_to_ws_users_in_room, user_disconnected, wants,
}

outbox_of-send_to_others :
    (my_id id : ℕ) (text : Text) (us : List User)
    → outbox_of id (send_to_others my_id text us)
      ≡ Option.map (λ texts. if my_id == id then texts else texts ++ text ∷ []) (outbox_of id us)
unfolding outbox_of send_to_others
outbox_of-send_to_others my_id id text [] = refl
outbox_of-send_to_others my_id id text (u ∷ us) =
    ground (arith, outbox_of-send_to_others my_id id text us)

-- A text message goes to every user online but its sender, once, in the form "<User#id> in
-- <Room#room>: message", whatever rooms the users are in; no room changes.
pub send_message_lem :
    (my_id : ℕ) (msg room : Text) (s : Hub) (id : ℕ)
    → let t = send_message_to_ws_users_in_room my_id (some msg) room s in
      (outbox_of id t.online
        ≡ Option.map
            (λ texts. if my_id == id then texts else texts ++ message_text my_id room msg ∷ [])
            (outbox_of id s.online))
      × (t.rooms ≡ s.rooms)
unfolding send_message_to_ws_users_in_room
send_message_lem my_id msg room s id =
    (outbox_of-send_to_others my_id id (message_text my_id room msg) s.online, refl)

outbox_of-remove_user :
    (gone id : ℕ) (us : List User)
    → outbox_of id (remove_user gone us) ≡ (if gone == id then none else outbox_of id us)
unfolding outbox_of remove_user
outbox_of-remove_user gone id [] = ground arith
outbox_of-remove_user gone id (u ∷ us) = ground (arith, outbox_of-remove_user gone id us)

has_room-add_to_room :
    (id : ℕ) (room : Text) (rs : List Room) → has_room room (add_to_room id room rs) ≡ true
unfolding has_room add_to_room
has_room-add_to_room id room [] = ground (arith, text_eq_refl room)
has_room-add_to_room id room (r ∷ rs) = ground (arith, has_room-add_to_room id room rs)

-- A session that enters a room and is then closed takes its user, and no other, offline; but the
-- rooms are what they were when the user had entered: the user's id stays in the room's set.
pub disconnected_user_stays_in_room :
    (user_id : ℕ) (room : Text) (s : Hub) (id : ℕ)
    → let entered = enter_room user_id room s in
      (t : Hub) × (user_disconnected user_id room entered ≡ done t)
      × (outbox_of id t.online ≡ (if user_id == id then none else outbox_of id s.online))
      × (t.rooms ≡ entered.rooms)
unfolding user_disconnected enter_room
disconnected_user_stays_in_room user_id room s id = (
  record s { online = remove_user user_id s.online; rooms = add_to_room user_id room s.rooms },
  ground (arith, has_room-add_to_room user_id room s.rooms),
  outbox_of-remove_user user_id id s.online,
  refl,
)

module _ (V : Services) where
  -- The texts that read as notifications which the listener wants.
  abbrev pub wanted : Listener → List Text → List Text
  wanted l [] = []
  wanted l (text ∷ texts) = elim (V.decode_notif text) [
    | none ↦ wanted l texts
    | some event ↦ if wants l event then text ∷ wanted l texts else wanted l texts
  ]

  abbrev pub AreNotifs : List Text → Type 0
  AreNotifs [] = Unit
  AreNotifs (text ∷ texts) = (is_some (V.decode_notif text) ≡ true) × AreNotifs texts

  module _ (l : Listener) (later : List Listener) (id : ℕ) where
    -- What the first listener's user gets, and nobody else.
    abbrev Given : List Text → Hub → Hub → Type 0
    Given texts s t =
        (outbox_of id t.online
          ≡ Option.map (λ had. if l.user_id == id then had ++ wanted l texts else had)
              (outbox_of id s.online))
        × (t.waiting ≡ l ∷ later)
