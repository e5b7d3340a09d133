-- ===== src/Cqrs/Seen.antt =====
-- src/workers/cqrs/accessors/notif.rs: `setSeenNotif`, `get_by_notif_id` and the handlers of `SeenNotif`
-- and `RequestNotifDataByNotifId`. A spawned task that panics drops its channel, and the handler
-- then answers none.
use hoopoe.Base.{
  [], ◌∷◌, ◌++◌, Bool, true, Option, none, some, Outcome, done, panic, ◌>>=◌, unwrap, if◌then◌else◌,
  ℤ,
}
use hoopoe.Models.{storage_io_error_code}
use hoopoe.Errors
use hoopoe.Errors.{new_error}
use hoopoe.Cqrs.Table.{NotifRow, find_by_id, update_row}
use hoopoe.Cqrs.Store.{Notifs}

-- Whether the database answers the query and the update.
pub record SeenAnswers : Type 0 where
  pub query_ok : Bool
  pub update_ok : Bool

unfoldable pub set_seen_notif : SeenAnswers → ℤ → Notifs → Outcome (Notifs × Option NotifRow)
unfolding update_row
set_seen_notif db notif_id n = do
  row ← unwrap (if db.query_ok then find_by_id notif_id n.rows else none)
  let seen = record row { is_seen = true }
  if db.update_ok then done (record n { rows = update_row seen n.rows }, some seen) else panic

unfoldable pub get_by_notif_id : Bool → ℤ → Notifs → Outcome (Notifs × Option NotifRow)
unfolding new_error
get_by_notif_id query_ok notif_id n =
    if query_ok
    then (unwrap (find_by_id notif_id n.rows) >>= λ row. done (n, some row))
    else done (
      record n {
        errors = n.errors ++ new_error storage_io_error_code Errors.Site.get_by_notif_id true ∷ [];
      },
      none,
    )

-- The answer of a handler to what its spawned task sends.
unfoldable pub answer_of :
    Notifs → Outcome (Notifs × Option NotifRow) → Notifs × Option (Option NotifRow)
answer_of n panic = (n, none)
answer_of n (done (n', answer)) = (n', some answer)

unfoldable pub handle_seen : SeenAnswers → ℤ → Notifs → Notifs × Option (Option NotifRow)
unfolding set_seen_notif answer_of
handle_seen db notif_id n = answer_of n (set_seen_notif db notif_id n)

unfoldable pub handle_by_id : Bool → ℤ → Notifs → Notifs × Option (Option NotifRow)
unfolding get_by_notif_id answer_of
handle_by_id query_ok notif_id n = answer_of n (get_by_notif_id query_ok notif_id n)
