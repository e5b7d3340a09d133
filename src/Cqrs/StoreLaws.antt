-- ===== src/Cqrs/StoreLaws.antt =====
-- What the tasks that src/workers/cqrs/mutators/notif.rs spawns leave in the table.
use mathlib.Core.Path.{subst}
use mathlib.Core.List.{append_assoc, append-nil}
use mathlib.Core.List.{Perm, perm_middle}
use mathlib.Core.List.Perm
use hoopoe.Base.{
  Text, codes, List, [], ◌∷◌, ◌++◌, Bool, none, some, ◌&&◌, if◌then◌else◌, ◌≡◌, refl, arith, ℤ, ◌∙◌,
  sym, ap, inl, inr, Option-cases,
}
use hoopoe.Models.{
  NotifData, ActionType, product_purchased, zerlog, event_created, event_expired, event_locked,
}
use hoopoe.Cqrs.Table.{NotifRow}
use hoopoe.Cqrs.Store.{
  DbAnswers, Notifs, action_name, row_of, handle_store_event, StoreTasks, spawned, ended,
}

-- The word for what fired a notification, as the rows have it.
abbrev pub fired_by : ActionType → Text
fired_by product_purchased = codes "ProductPurchased"
fired_by zerlog = codes "Zerlog"
fired_by event_created = codes "EventCreated"
fired_by event_expired = codes "EventExpired"
fired_by event_locked = codes "EventLocked"

-- The row that a message asks for, under the id that the database gives.
abbrev pub asked_row : ℤ → NotifData → NotifRow
asked_row id d = record {
  id = id;
  receiver_info = d.receiver_info;
  nid = d.id;
  action_data = d.action_data;
  actioner_info = d.actioner_info;
  action_type = fired_by d.action_type;
  fired_at = d.fired_at;
  is_seen = d.is_seen;
}

action_name_lem : (a : ActionType) → action_name a ≡ fired_by a
unfolding action_name
action_name_lem product_purchased = refl
action_name_lem zerlog = refl
action_name_lem event_created = refl
action_name_lem event_expired = refl
action_name_lem event_locked = refl

row_of_lem : (id : ℤ) (d : NotifData) → row_of id d ≡ asked_row id d
unfolding row_of
row_of_lem id d =
    ap (λ name. record (asked_row id d) { action_type = name }) (action_name_lem d.action_type)

-- The row of a message that the database takes: none if its time is no date.
abbrev pub taken : (ℤ → Bool) → NotifData → DbAnswers → List NotifRow
taken in_range d db =
    if in_range d.fired_at && db.json_ok
    then (elim db.saved [ none ↦ [] | some id ↦ asked_row id d ∷ [] ])
    else []

abbrev pub all_taken : (ℤ → Bool) → List (NotifData × DbAnswers) → List NotifRow
all_taken in_range [] = []
all_taken in_range ((d, db) ∷ rest) = taken in_range d db ++ all_taken in_range rest

rows-handle_store_event :
    (in_range : ℤ → Bool) (db : DbAnswers) (d : NotifData) (n : Notifs)
    → (handle_store_event in_range db d n).rows ≡ n.rows ++ taken in_range d db
unfolding handle_store_event
rows-handle_store_event in_range db d n = elim (Option-cases db.saved) [
  | inl refused ↦ ground (arith, append-nil n.rows, refused)
  | inr (id, saved) ↦ ground (arith, append-nil n.rows, saved, row_of_lem id d)
]

all_taken-append :
    (in_range : ℤ → Bool) (ms : List (NotifData × DbAnswers)) (d : NotifData) (db : DbAnswers)
    → all_taken in_range (ms ++ (d, db) ∷ []) ≡ all_taken in_range ms ++ taken in_range d db
all_taken-append in_range [] d db = append-nil (taken in_range d db)
all_taken-append in_range ((e, db') ∷ ms) d db =
    ap (λ rows. taken in_range e db' ++ rows) (all_taken-append in_range ms d db)
    ∙ sym (append_assoc (taken in_range e db') (all_taken in_range ms) (taken in_range d db))

module _ {in_range : ℤ → Bool} {ms : List (NotifData × DbAnswers)} {start : Notifs} where
  tasks-rows :
      {left order : List (NotifData × DbAnswers)} {n : Notifs}
      → StoreTasks in_range ms start left n order
      → n.rows ≡ start.rows ++ all_taken in_range order
  tasks-rows spawned = sym (append-nil start.rows)
  tasks-rows (ended {n = n} {order = order} before after d db tasks) =
      rows-handle_store_event in_range db d n
      ∙ ap (λ rows. rows ++ taken in_range d db) (tasks-rows tasks)
      ∙ append_assoc start.rows (all_taken in_range order) (taken in_range d db)
      ∙ ap (λ rows. start.rows ++ rows) (sym (all_taken-append in_range order d db))

  -- What is over and what is left are the messages.
  tasks-Perm :
      {left order : List (NotifData × DbAnswers)} {n : Notifs}
      → StoreTasks in_range ms start left n order
      → Perm (order ++ left) ms
  tasks-Perm spawned = Perm.refl ms
  tasks-Perm (ended {order = order} before after d db tasks) =
      subst (λ xs. Perm xs ms) (sym (append_assoc order ((d, db) ∷ []) (before ++ after)))
        (Perm.trans (Perm.append_left order (Perm.symm (perm_middle before after)))
          (tasks-Perm tasks))

  -- However the tasks of the messages come to their ends: once none is left, the table holds what it
  -- held and after that, in the order of the ends, one row for each message whose time is a date and
  -- which the database takes. That order is some order of all the messages; so a task that panics or
  -- fails keeps no other message from being stored.
  pub store_all_lem :
      {order : List (NotifData × DbAnswers)} {n : Notifs}
      → StoreTasks in_range ms start [] n order
      → Perm order ms × (n.rows ≡ start.rows ++ all_taken in_range order)
  store_all_lem {order = order} tasks =
      (subst (λ xs. Perm xs ms) (append-nil order) (tasks-Perm tasks), tasks-rows tasks)
