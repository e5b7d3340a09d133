-- ===== src/Examples/Schemas.antt =====
-- A database that knows the names of its tables and what hangs on each, and the laws of its manager.
use hoopoe.Base.{
  Text, List, [], ◌∷◌, Bool, true, false, ◌||◌, ◌≡◌, refl, arith, ap, if◌then◌else◌, text_eq,
  text_eq_refl, Bool-cases, inl, inr,
}
use hoopoe.Schema.Manager.{SchemaManager, ManagerLaws}

pub record MadeTable : Type 0 where
  pub name : Text
  pub parts : List Text

unfoldable pub has : Text → List MadeTable → Bool
has name [] = false
has name (t ∷ ts) = text_eq t.name name || has name ts

unfoldable pub remove : Text → List MadeTable → List MadeTable
remove name [] = []
remove name (t ∷ ts) = let rest = remove name ts in if text_eq t.name name then ts else t ∷ rest

unfoldable pub add_part : Text → Text → List MadeTable → List MadeTable
add_part name part [] = []
add_part name part (t ∷ ts) =
    let rest = add_part name part ts in
    if text_eq t.name name then record t { parts = part ∷ t.parts } ∷ ts else t ∷ rest

unfoldable pub create : Text → List MadeTable → List MadeTable × Bool
create name ts = if has name ts then (ts, true) else (record { name = name; parts = [] } ∷ ts, true)

unfoldable pub drop : Text → List MadeTable → List MadeTable × Bool
drop name ts = if has name ts then (remove name ts, true) else (ts, false)

abbrev pub manager : SchemaManager
manager = record {
  Database = List MadeTable;
  has_table = has;
  create_table = λ t ts. create t.table ts;
  drop_table = drop;
  create_index = λ i ts. (add_part i.table i.name ts, has i.table ts);
  create_foreign_key = λ k ts. (add_part k.from_table k.name ts, has k.from_table ts);
  execute_unprepared = λ query ts. (ts, true);
}

drop-create :
    (name : Text) (ts : List MadeTable)
    → has name ts ≡ false
    → drop name (create name ts).0 ≡ (ts, true)
unfolding drop create has remove
drop-create name ts absent = ground (arith, absent, text_eq_refl name)

has-add_part :
    (name other part : Text) (ts : List MadeTable) → has name (add_part other part ts) ≡ has name ts
unfolding has add_part
has-add_part name other part [] = refl
has-add_part name other part (t ∷ ts) = ground (arith, has-add_part name other part ts)

remove-add_part :
    (name part : Text) (ts : List MadeTable) → remove name (add_part name part ts) ≡ remove name ts
unfolding remove add_part
remove-add_part name part [] = refl
remove-add_part name part (t ∷ ts) = ground (arith, remove-add_part name part ts)

drop-add_part :
    (name part : Text) (ts : List MadeTable)
    → has name ts ≡ true
    → drop name (add_part name part ts) ≡ drop name ts
unfolding drop
drop-add_part name part ts there =
    rw (has-add_part name name part ts, there, remove-add_part name part ts) refl

add_part-absent :
    (name part : Text) (ts : List MadeTable) → has name ts ≡ false → add_part name part ts ≡ ts
unfolding has add_part
add_part-absent name part [] absent = refl
add_part-absent name part (t ∷ ts) absent = ground (arith, absent, add_part-absent name part ts)

drop-part :
    (name part : Text) (ts : List MadeTable) → drop name (add_part name part ts) ≡ drop name ts
drop-part name part ts = elim (Bool-cases (has name ts)) [
  | inl there ↦ drop-add_part name part ts there
  | inr absent ↦ ap (drop name) (add_part-absent name part ts absent)
]

has-create :
    (name other : Text) (ts : List MadeTable)
    → text_eq other name ≡ false
    → has name (create other ts).0 ≡ has name ts
unfolding has create
has-create name other ts differ = ground (arith, differ)

pub manager_laws : ManagerLaws manager
manager_laws = record {
  drop-create_table = λ t ts. drop-create t.table ts;
  drop-create_index = λ i ts. drop-part i.table i.name ts;
  drop-create_foreign_key = λ k ts. drop-part k.from_table k.name ts;
  has-create_table = λ name t ts. has-create name t.table ts;
  has-create_index = λ name i ts. has-add_part name i.table i.name ts;
}
