-- ===== src/Hoop/Mutator.antt =====
-- src/workers/cqrs/mutators/hoop.rs: `RawFinishHoop`, `raw_store`, `store` and the handlers of
-- `StoreHoopEvent` and `RawStoreHoopEvent`. The table is kept beside the outcome, since a task that
-- panics leaves what it has written. `local_spawn` only picks the thread.
use hoopoe.Base.{
  ℤ, Text, List, [], ◌∷◌, ◌++◌, map, Bool, true, Option, none, some, Outcome, done, panic, ◌>>=◌,
  unwrap, if◌then◌else◌, eq_ℤ, text_eq,
}
use hoopoe.Models.{storage_io_error_code}
use hoopoe.Errors
use hoopoe.Errors.{Site, HoopoeErrorResponse, new_error}

pub record HoopEventFormForDb : Type 0 where
  pub etype : Text
  pub manager : ℤ
  pub entrance_fee : ℤ
  pub title : Text
  pub description : Text
  pub started_at : ℤ
  pub end_at : ℤ
  pub duration : ℤ
  pub capacity : ℤ
  pub cover : Text

-- A row, its times in seconds, without those that the database puts.
pub record HoopModel : Type 0 where
  pub id : ℤ
  pub form : HoopEventFormForDb
  pub is_finished : Bool

-- What a query answers of a row.
pub record DbHoopData : Type 0 where
  pub id : ℤ
  pub form : HoopEventFormForDb

pub record Hoops : Type 0 where
  pub rows : List HoopModel
  pub errors : List HoopoeErrorResponse

abbrev pub Answered : Type 0 → Type 0
Answered A = Hoops × Outcome (Option A)

unfoldable pub hoop_by_title : Text → List HoopModel → Option HoopModel
hoop_by_title title [] = none
hoop_by_title title (row ∷ rows) =
    if text_eq row.form.title title then some row else hoop_by_title title rows

unfoldable pub hoop_by_id : ℤ → List HoopModel → Option HoopModel
hoop_by_id id [] = none
hoop_by_id id (row ∷ rows) = if eq_ℤ row.id id then some row else hoop_by_id id rows

unfoldable pub mark_finished : Text → HoopModel → HoopModel
mark_finished title row =
    if text_eq row.form.title title then record row { is_finished = true } else row

refuse : {A : Type 0} → Site → Hoops → Answered A
unfolding new_error
refuse site h =
    (record h { errors = h.errors ++ new_error storage_io_error_code site true ∷ [] }, done none)

-- The fetch after a write: an error of the query, or its first row, which is unwrapped. `try_get` is
-- the driver's reading of the columns, which panics (none) where a column has another type.
fetched : (HoopModel → Option DbHoopData) → Bool → Option HoopModel → Hoops → Answered DbHoopData
unfolding refuse
fetched try_get query_ok row h =
    if query_ok
    then (h, unwrap row >>= λ r. unwrap (try_get r) >>= λ hoop. done (some hoop))
    else refuse Errors.Site.hoop_query_one h

-- `update … where title = $1`, then `select … where title = $1`.
unfoldable pub raw_finish_hoop :
    (HoopModel → Option DbHoopData) → Bool → Bool → Text → Hoops → Answered DbHoopData
unfolding fetched refuse hoop_by_title mark_finished
raw_finish_hoop try_get execute_ok query_ok title h =
    if execute_ok
    then (let marked = map (mark_finished title) h.rows in
        fetched try_get query_ok (hoop_by_title title marked) (record h { rows = marked }))
    else refuse Errors.Site.hoop_execute h

new_row : ℤ → HoopEventFormForDb → HoopModel
new_row id hoop = record { id = id; form = hoop; is_finished = Bool.false }

-- `inserted` is the id that the database gives the row; `last_insert_id` is the driver's, which
-- panics (none) where the database has no such notion.
unfoldable pub raw_store :
    Option ℤ
    → (ℤ → Option ℤ)
    → (HoopModel → Option DbHoopData)
    → Bool
    → HoopEventFormForDb
    → Hoops
    → Answered DbHoopData
unfolding fetched refuse hoop_by_id new_row
raw_store inserted last_insert_id try_get query_ok hoop h = elim inserted [
  | none ↦ refuse Errors.Site.hoop_execute h
  | some id ↦
      let stored : Hoops = record h { rows = h.rows ++ new_row id hoop ∷ [] } in
      elim (last_insert_id id) [
        | none ↦ (stored, panic)
        | some last ↦ fetched try_get query_ok (hoop_by_id last stored.rows) stored
      ]
]

unfoldable pub store_hoop : Bool → Option ℤ → Bool → HoopEventFormForDb → Hoops → Answered HoopModel
unfolding refuse new_row
store_hoop json_ok saved model_ok hoop h =
    if json_ok
    then (elim saved [
      | none ↦ refuse Errors.Site.hoop_save h
      | some id ↦
          let stored : Hoops = record h { rows = h.rows ++ new_row id hoop ∷ [] } in
          if model_ok
          then (stored, done (some (new_row id hoop)))
          else refuse Errors.Site.hoop_try_into_model stored
    ])
    else refuse Errors.Site.hoop_set_from_json h

-- The handlers drop the answer.
unfoldable pub handle_store_hoop : Bool → Option ℤ → Bool → HoopEventFormForDb → Hoops → Hoops
unfolding store_hoop
handle_store_hoop json_ok saved model_ok hoop h = (store_hoop json_ok saved model_ok hoop h).0

unfoldable pub handle_raw_store_hoop :
    Option ℤ
    → (ℤ → Option ℤ)
    → (HoopModel → Option DbHoopData)
    → Bool
    → HoopEventFormForDb
    → Hoops
    → Hoops
unfolding raw_store
handle_raw_store_hoop inserted last_insert_id try_get query_ok hoop h =
    (raw_store inserted last_insert_id try_get query_ok hoop h).0
