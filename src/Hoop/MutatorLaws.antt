-- ===== src/Hoop/MutatorLaws.antt =====
-- Which hoops `RawFinishHoop` of src/workers/cqrs/mutators/hoop.rs marks as finished.
use hoopoe.Base.{
  Text, List, [], ◌∷◌, map, true, false, Option, none, some, Outcome, done, panic, ◌>>=◌, unwrap,
  ◌⊎◌, inl, inr, ◌≡◌, refl, arith, text_eq, ap, Bool-cases,
}
use hoopoe.Hoop.Mutator.{
  HoopModel, DbHoopData, Hoops, hoop_by_title, mark_finished, raw_finish_hoop,
}

-- The first row of the title, after the update.
hoop_by_title-map :
    (title : Text) (rows : List HoopModel)
    → hoop_by_title title (map (mark_finished title) rows) ≡ (elim (hoop_by_title title rows) [
      | none ↦ none
      | some row ↦ some (record row { is_finished = true })
    ])
unfolding hoop_by_title mark_finished
hoop_by_title-map title [] = refl
hoop_by_title-map title (row ∷ rows) = elim (Bool-cases (text_eq row.form.title title)) [
  | inl same ↦ rw (same, same) refl
  | inr other ↦ rw (other, other) (hoop_by_title-map title rows)
]

unmarked :
    (title : Text) (rows : List HoopModel)
    → hoop_by_title title rows ≡ none
    → map (mark_finished title) rows ≡ rows
unfolding hoop_by_title mark_finished
unmarked title [] e = refl
unmarked title (row ∷ rows) e =
    by_test (Bool-cases (text_eq row.form.title title)) (unmarked title rows) e
  where
    by_test :
        (text_eq row.form.title title ≡ true) ⊎ (text_eq row.form.title title ≡ false)
        → (hoop_by_title title rows ≡ none → map (mark_finished title) rows ≡ rows)
        → hoop_by_title title (row ∷ rows) ≡ none
        → map (mark_finished title) (row ∷ rows) ≡ row ∷ rows
    by_test (inl same) ih = rw same (λ e. absurd (ground (arith, e)))
    by_test (inr other) ih = rw other (λ e. ap (λ rest. row ∷ rest) (ih e))

-- What a query of a row answers.
abbrev read_row : (HoopModel → Option DbHoopData) → HoopModel → Outcome (Option DbHoopData)
read_row try_get row = unwrap (try_get row) >>= λ hoop. done (some hoop)

-- Where the database answers, finishing a hoop by SQL marks every row of the title and no other one,
-- and answers the first of them, marked, if its columns can be read, and panics if not; without such
-- a row it changes nothing and panics.
pub raw_finish_hoop_lem :
    (try_get : HoopModel → Option DbHoopData) (title : Text) (h : Hoops)
    → raw_finish_hoop try_get true true title h ≡ (elim (hoop_by_title title h.rows) [
      | none ↦ (h, panic)
      | some row ↦ (
        record h { rows = map (mark_finished title) h.rows },
        read_row try_get (record row { is_finished = true }),
      )
    ])
unfolding raw_finish_hoop
raw_finish_hoop_lem try_get title h = found (hoop_by_title title h.rows) refl
  where
    found :
        (o : Option HoopModel)
        → hoop_by_title title h.rows ≡ o
        → raw_finish_hoop try_get true true title h ≡ (elim (hoop_by_title title h.rows) [
          | none ↦ (h, panic)
          | some row ↦ (
            record h { rows = map (mark_finished title) h.rows },
            read_row try_get (record row { is_finished = true }),
          )
        ])
    found none e = rw (hoop_by_title-map title h.rows, e, unmarked title h.rows e) refl
    found (some row) e = rw (hoop_by_title-map title h.rows, e) refl
