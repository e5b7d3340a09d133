-- ===== src/Cqrs/SeenLaws.antt =====
-- A stored notification is read by its id and marked as seen.
use hoopoe.Base.{
  List, [], ◌∷◌, ◌++◌, Bool, true, false, Option, none, some, ◌≡◌, refl, arith, ℤ, eq_ℤ, eq_ℤ-true,
  eq_ℤ_refl, inl, inr, Bool-cases,
}
use hoopoe.Models.{NotifData}
use hoopoe.Cqrs.Table.{NotifRow, find_by_id, update_row}
use hoopoe.Cqrs.Store.{DbAnswers, Notifs, row_of, handle_store_event}
use hoopoe.Cqrs.Seen.{handle_seen, handle_by_id}

found_id :
    (id : ℤ) (rows : List NotifRow) (row : NotifRow) → find_by_id id rows ≡ some row → row.id ≡ id
unfolding find_by_id
found_id id [] row e = cc
found_id id (r ∷ rows) row e = ground (arith, found_id id rows row, eq_ℤ-true r.id id)

update_row-other :
    (new : NotifRow) (j : ℤ) (rows : List NotifRow)
    → eq_ℤ new.id j ≡ false
    → find_by_id j (update_row new rows) ≡ find_by_id j rows
unfolding find_by_id update_row
update_row-other new j [] other = refl
update_row-other new j (r ∷ rows) other = elim (Bool-cases (eq_ℤ r.id new.id)) [
  | inl same ↦
      let agree : eq_ℤ r.id j ≡ false = rw (eq_ℤ-true r.id new.id same) other in
      ground (arith, same, other, agree, update_row-other new j rows)
  | inr differs ↦ ground (arith, differs, update_row-other new j rows)
]

update_row-same :
    (new : NotifRow) (rows : List NotifRow) (old : NotifRow)
    → find_by_id new.id rows ≡ some old
    → find_by_id new.id (update_row new rows) ≡ some new
unfolding find_by_id update_row
update_row-same new [] old e = cc
update_row-same new (r ∷ rows) old e =
    ground (arith, eq_ℤ_refl new.id, update_row-same new rows old)

append-found :
    (rows : List NotifRow) (new : NotifRow)
    → find_by_id new.id rows ≡ none
    → find_by_id new.id (rows ++ new ∷ []) ≡ some new
unfolding find_by_id
append-found [] new e = ground (arith, eq_ℤ_refl new.id)
append-found (r ∷ rows) new e = ground (arith, append-found rows new)

append-other :
    (j : ℤ) (rows : List NotifRow) (new : NotifRow)
    → eq_ℤ new.id j ≡ false
    → find_by_id j (rows ++ new ∷ []) ≡ find_by_id j rows
unfolding find_by_id
append-other j [] new e = ground arith
append-other j (r ∷ rows) new e = ground (arith, append-other j rows new)

-- A notification is stored under an id that no row has. A request that it is seen then answers the
-- notification's row with the flag set; a later request by that id reads the same row, and rows
-- under other ids are as they were before the notification was stored.
pub handle_seen-stored :
    (in_range : ℤ → Bool) (d : NotifData) (id j : ℤ) (n : Notifs)
    → in_range d.fired_at ≡ true
    → find_by_id id n.rows ≡ none
    → eq_ℤ id j ≡ false
    → let db : DbAnswers = record { json_ok = true; saved = some id; model_ok = true } in
      let seen : NotifRow = record (row_of id d) { is_seen = true } in
      let result : Notifs × Option (Option NotifRow) =
        handle_seen
          (record { query_ok = true; update_ok = true })
          id
          (handle_store_event in_range db d n) in
      (result.1 ≡ some (some seen))
      × ((handle_by_id true id result.0).1 ≡ some (some seen))
      × (find_by_id j result.0.rows ≡ find_by_id j n.rows)
unfolding handle_store_event handle_seen handle_by_id row_of
handle_seen-stored in_range d id j n dated fresh other =
    let row = row_of id d in
    let seen : NotifRow = record row { is_seen = true } in
    let stored = n.rows ++ row ∷ [] in
    let found = append-found n.rows row fresh in
    let marked = update_row-same seen stored row found in
    let kept = update_row-other seen j stored other in
    (
      ground (arith, dated, found),
      ground (arith, dated, found, marked),
      ground (arith, dated, found, kept, append-other j n.rows row other),
    )
