-- ===== src/Cqrs/Table.antt =====
-- The table of notifications (src/entities/notifs.rs), as the queries by primary key see it.
use hoopoe.Base.{Text, List, [], ◌∷◌, Bool, Option, none, some, if◌then◌else◌, ℤ, eq_ℤ}

-- `fired_at` is a date and time without a zone, kept as its timestamp.
pub record NotifRow : Type 0 where
  pub id : ℤ
  pub receiver_info : Text
  pub nid : Text
  pub action_data : Text
  pub actioner_info : Text
  pub action_type : Text
  pub fired_at : ℤ
  pub is_seen : Bool

-- `select * from notifs where id = $1`, the first row.
unfoldable pub find_by_id : ℤ → List NotifRow → Option NotifRow
find_by_id id [] = none
find_by_id id (row ∷ rows) = if eq_ℤ row.id id then some row else find_by_id id rows

-- The update of a row by its primary key.
unfoldable pub update_row : NotifRow → List NotifRow → List NotifRow
update_row new [] = []
update_row new (row ∷ rows) =
    let rest = update_row new rows in if eq_ℤ row.id new.id then new ∷ rest else row ∷ rest
