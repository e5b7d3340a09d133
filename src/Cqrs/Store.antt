-- ===== src/Cqrs/Store.antt =====
-- src/workers/cqrs/mutators/notif.rs: `NotifMutatorActor.store` and the handler of `StoreNotifEvent`.
-- `local_spawn` only picks the thread of the spawned task; a task that panics changes nothing.
use hoopoe.Base.{
  Text, codes, List, [], ◌∷◌, ◌++◌, Bool, true, Option, none, some, Outcome, done, panic,
  if◌then◌else◌, ℤ,
}
use hoopoe.Models.{
  ActionType, product_purchased, zerlog, event_created, event_expired, event_locked, NotifData,
  storage_io_error_code,
}
use hoopoe.Errors
use hoopoe.Errors.{Site, HoopoeErrorResponse, new_error}
use hoopoe.Cqrs.Table.{NotifRow}

-- How the database answers one `store`: whether the row can be built from the JSON, the id under
-- which the row is inserted if it is, and whether the inserted row is read back.
pub record DbAnswers : Type 0 where
  pub json_ok : Bool
  pub saved : Option ℤ
  pub model_ok : Bool

pub record Notifs : Type 0 where
  pub rows : List NotifRow
  pub errors : List HoopoeErrorResponse

-- `format!("{:?}", action_type)`.
unfoldable pub action_name : ActionType → Text
action_name product_purchased = codes "ProductPurchased"
action_name zerlog = codes "Zerlog"
action_name event_created = codes "EventCreated"
action_name event_expired = codes "EventExpired"
action_name event_locked = codes "EventLocked"

unfoldable pub row_of : ℤ → NotifData → NotifRow
unfolding action_name
row_of id d = record {
  id = id;
  receiver_info = d.receiver_info;
  nid = d.id;
  action_data = d.action_data;
  actioner_info = d.actioner_info;
  action_type = action_name d.action_type;
  fired_at = d.fired_at;
  is_seen = d.is_seen;
}

store_failed : Site → Notifs → Notifs
unfolding new_error
store_failed site n = record n {
  errors = n.errors ++ new_error storage_io_error_code site true ∷ [];
}

saved_row : NotifData → Bool → Option ℤ → Notifs → Notifs
unfolding store_failed row_of
saved_row d model_ok none n = store_failed Errors.Site.notif_save n
saved_row d model_ok (some id) n =
    let inserted = record n { rows = n.rows ++ row_of id d ∷ [] } in
    if model_ok then inserted else store_failed Errors.Site.notif_try_into_model inserted

-- `in_range` is chrono's: whether the seconds are those of a date. Others panic.
unfoldable pub store : (ℤ → Bool) → DbAnswers → NotifData → Notifs → Outcome Notifs
unfolding saved_row store_failed
store in_range db d n =
    if in_range d.fired_at
    then (if db.json_ok
        then done (saved_row d db.model_ok db.saved n)
        else done (store_failed Errors.Site.notif_set_from_json n))
    else panic

unfoldable pub handle_store_event : (ℤ → Bool) → DbAnswers → NotifData → Notifs → Notifs
unfolding store
handle_store_event in_range db d n = elim (store in_range db d n) [
  | panic ↦ n
  | done stored ↦ stored
]

-- The handler spawns a task for each message, and the tasks come to their ends in any order: those
-- that are left, what the table holds, and the messages whose tasks are over, in the order in which
-- they ended.
pub data StoreTasks (in_range : ℤ → Bool) (ms : List (NotifData × DbAnswers)) (start : Notifs)
    : List (NotifData × DbAnswers) → Notifs → List (NotifData × DbAnswers) → Type 0 where
  spawned : StoreTasks in_range ms start ms start []
  ended :
      {n : Notifs} {order : List (NotifData × DbAnswers)}
      (before after : List (NotifData × DbAnswers)) (d : NotifData) (db : DbAnswers)
      → StoreTasks in_range ms start (before ++ (d, db) ∷ after) n order
      → StoreTasks in_range ms start
          (before ++ after)
          (handle_store_event in_range db d n)
          (order ++ (d, db) ∷ [])
