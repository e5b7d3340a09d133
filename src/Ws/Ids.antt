-- ===== src/Ws/Ids.antt =====
-- The ids of the sessions of src/server/mod.rs: how the hub's state can develop, and that each
-- session has an id of its own.
use mathlib.Core.Path.{subst, sym}
use hoopoe.Base.{
  ℕ, ◌+◌, ◌<◌, ◌^◌, ◌%◌, Text, List, [], ◌∷◌, Option, none, some, done, ◌≡◌, ◌≢◌, refl, arith, inl,
  inr, parse_usize, Option-cases, All, length,
}
use hoopoe.Models.{EventQuery}
use hoopoe.Service.{Services}
use hoopoe.Ws.{
  Hub, session_handler, enter_online, enter_room, send_message_to_ws_users_in_room,
  user_disconnected, receive, room_of,
}

-- The hub together with the ids of the sessions that were ever accepted, the last one first.
pub record History : Type 0 where
  pub hub : Hub
  pub accepted : List ℕ

module _ (V : Services) where
  -- What can happen next: a session is accepted or turned away, a session's task runs on, a message
  -- of a session comes, or a text of the notification channel.
  pub data Step (h : History) : History → Type 0 where
    accept :
        (query : EventQuery) (t : Hub) (id : ℕ)
        → session_handler query h.hub ≡ done (t, some id)
        → Step h (record { hub = t; accepted = id ∷ h.accepted })
    turn_away :
        (query : EventQuery) (t : Hub)
        → session_handler query h.hub ≡ done (t, none)
        → Step h (record h { hub = t })
    online : (id : ℕ) → Step h (record h { hub = enter_online id h.hub })
    room :
        (id : ℕ) (query : EventQuery)
        → Step h (record h { hub = enter_room id (room_of query) h.hub })
    message :
        (id : ℕ) (msg : Option Text) (to : Text)
        → Step h (record h { hub = send_message_to_ws_users_in_room id msg to h.hub })
    leave :
        (id : ℕ) (from : Text) (t : Hub)
        → user_disconnected id from h.hub ≡ done t
        → Step h (record h { hub = t })
    notify : (text : Text) → Step h (record h { hub = receive V text h.hub })

  pub data Reach (h : History) : History → Type 0 where
    start : Reach h h
    after : {g k : History} → Reach h g → Step g k → Reach h k

  -- The ids are below a bound, and no two are equal.
  abbrev pub AreFresh : ℕ → List ℕ → Type 0
  AreFresh bound [] = Unit
  AreFresh bound (id ∷ ids) = (id < bound) × All (λ other. other ≢ id) ids × AreFresh bound ids

  abbrev pub Distinct : List ℕ → Type 0
  Distinct [] = Unit
  Distinct (id ∷ ids) = All (λ other. other ≢ id) ids × Distinct ids

  -- How many sessions can still be accepted before the counter wraps around.
  AreFresh-below :
      (bound : ℕ) (ids : List ℕ) → AreFresh bound ids → All (λ other. other ≢ bound) ids
  AreFresh-below bound [] f = tt
  AreFresh-below bound (id ∷ ids) f = (λ e. omega (arith, f.0, e), AreFresh-below bound ids f.2)

  AreFresh-suc : (bound : ℕ) (ids : List ℕ) → AreFresh bound ids → AreFresh (bound + 1) ids
  AreFresh-suc bound [] f = tt
  AreFresh-suc bound (id ∷ ids) f = (omega (arith, f.0), f.1, AreFresh-suc bound ids f.2)

  session_handler-id :
      (query : EventQuery) (s t : Hub) (id : ℕ)
      → session_handler query s ≡ done (t, some id)
      → (id ≡ s.next_id) × (t.next_id ≡ (s.next_id + 1) % 2 ^ 64)
  unfolding session_handler
  session_handler-id query s t id e = elim (Option-cases query.owner) [
    | inl o ↦ ground (arith, o)
    | inr (owner, o) ↦ elim (Option-cases (parse_usize owner)) [
      | inl n ↦ ground (arith, o, n)
      | inr (user_id, n) ↦ (ground (arith, o, n), ground (arith, o, n))
    ]
  ]

  session_handler-none :
      (query : EventQuery) (s t : Hub)
      → session_handler query s ≡ done (t, none)
      → t.next_id ≡ s.next_id
  unfolding session_handler
  session_handler-none query s t e = elim (Option-cases query.owner) [
    | inl o ↦ ground (arith, o)
    | inr (owner, o) ↦ elim (Option-cases (parse_usize owner)) [
      | inl n ↦ ground (arith, o, n)
      | inr (user_id, n) ↦ ground (arith, o, n)
    ]
  ]

  -- While the counter has not wrapped around, it is one more than the number of accepted sessions,
  -- and their ids are fresh.
  abbrev Inv : History → Type 0
  Inv h =
      length h.accepted + 1 < 2 ^ 64
      → (h.hub.next_id ≡ length h.accepted + 1) × AreFresh h.hub.next_id h.accepted

  receive-next_id : (text : Text) (s : Hub) → (receive V text s).next_id ≡ s.next_id
  unfolding receive
  receive-next_id text s = ground arith

  message-next_id :
      (id : ℕ) (msg : Option Text) (to : Text) (s : Hub)
      → (send_message_to_ws_users_in_room id msg to s).next_id ≡ s.next_id
  unfolding send_message_to_ws_users_in_room
  message-next_id id none to s = refl
  message-next_id id (some msg) to s = refl

  leave-next_id :
      (id : ℕ) (from : Text) (s t : Hub)
      → user_disconnected id from s ≡ done t
      → t.next_id ≡ s.next_id
  unfolding user_disconnected
  leave-next_id id from s t e = ground arith

  keep : (h : History) (t : Hub) → t.next_id ≡ h.hub.next_id → Inv h → Inv (record h { hub = t })
  keep h t same i small = rw same (i small)

  accept-Inv :
      (query : EventQuery) (h : History) (t : Hub) (id : ℕ)
      → session_handler query h.hub ≡ done (t, some id)
      → Inv h
      → Inv (record { hub = t; accepted = id ∷ h.accepted })
  accept-Inv query h t id e i small =
      let (same, next) = session_handler-id query h.hub t id e in
      let (count, fresh) = i (omega (arith, small)) in
      let plus_one : t.next_id ≡ h.hub.next_id + 1 = omega (arith, small, count, next) in
      (
        omega (arith, plus_one, count),
        (
          omega (arith, plus_one, same),
          rw same (AreFresh-below h.hub.next_id h.accepted fresh),
          subst (λ n. AreFresh n h.accepted) (sym plus_one)
              (AreFresh-suc h.hub.next_id h.accepted fresh),
        ),
      )

  Step-Inv : {h k : History} → Step h k → Inv h → Inv k
  unfolding enter_online enter_room
  Step-Inv {h} (accept query t id e) i = accept-Inv query h t id e i
  Step-Inv {h} (turn_away query t e) i = keep h t (session_handler-none query h.hub t e) i
  Step-Inv {h} (online id) i = i
  Step-Inv {h} (room id query) i = i
  Step-Inv {h} (message id msg to) i =
      keep h (send_message_to_ws_users_in_room id msg to h.hub) (message-next_id id msg to h.hub) i
  Step-Inv {h} (leave id from t e) i = keep h t (leave-next_id id from h.hub t e) i
  Step-Inv {h} (notify text) i = keep h (receive V text h.hub) (receive-next_id text h.hub) i

  Reach-Inv : {h k : History} → Inv h → Reach h k → Inv k
  Reach-Inv i start = i
  Reach-Inv i (after r s) = Step-Inv s (Reach-Inv i r)

  AreFresh-Distinct : (bound : ℕ) (ids : List ℕ) → AreFresh bound ids → Distinct ids
  AreFresh-Distinct bound [] f = tt
  AreFresh-Distinct bound (id ∷ ids) f = (f.1, AreFresh-Distinct bound ids f.2)

  -- Whatever sessions, messages and notifications come after the start of the server, and in
  -- whatever order, the accepted sessions have different ids, up to 2^64 - 2 of them; the next id is
  -- one more than their number.
  pub accepted-Distinct :
      (k : History)
      → Reach
          (record {
            hub = record { online = []; rooms = []; next_id = 1; waiting = [] };
            accepted = [];
          })
          k
      → length k.accepted + 1 < 2 ^ 64
      → Distinct k.accepted × (k.hub.next_id ≡ length k.accepted + 1)
  accepted-Distinct k r small =
      let (count, fresh) = Reach-Inv (λ few. (refl, tt)) r small in
      (AreFresh-Distinct k.hub.next_id k.accepted fresh, count)
