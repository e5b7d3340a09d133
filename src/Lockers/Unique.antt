-- ===== src/Lockers/Unique.antt =====
-- The list of locked ids of src/lockers/llm.rs holds no id twice.
use hoopoe.Base.{
  ℕ, ℤ, List, [], ◌∷◌, ◌++◌, false, ◌||◌, ◌≡◌, refl, arith, inl, inr, Bool-cases, eq_ℤ, eq_ℤ-true,
  eq_ℤ_refl,
}
use hoopoe.Lockers.Minting.{Call, contains, retain_others, check_lock, give_back}
use hoopoe.Lockers.Steps.{
  Minters, Move, check, deliver, release, reply, notice, Step, pick, Run, start, later,
}

abbrev pub NoneTwice : List ℤ → Type 0
NoneTwice [] = Unit
NoneTwice (p ∷ ps) = (contains p ps ≡ false) × NoneTwice ps

pub eq_ℤ_comm : (a b : ℤ) → eq_ℤ a b ≡ eq_ℤ b a
eq_ℤ_comm a b = elim (Bool-cases (eq_ℤ a b)) [
  | inl e ↦ ground (arith, e, eq_ℤ-true a b e, eq_ℤ_refl a)
  | inr e ↦ elim (Bool-cases (eq_ℤ b a)) [
    | inl e' ↦ ground (arith, e', eq_ℤ-true b a e', eq_ℤ_refl a)
    | inr e' ↦ ground (arith, e, e')
  ]
]

pub contains-append :
    (q p : ℤ) (ps : List ℤ) → contains q (ps ++ p ∷ []) ≡ (contains q ps || eq_ℤ p q)
unfolding contains
contains-append q p [] = ground arith
contains-append q p (x ∷ ps) = ground (arith, contains-append q p ps)

NoneTwice-append :
    (p : ℤ) (ps : List ℤ) → contains p ps ≡ false → NoneTwice ps → NoneTwice (ps ++ p ∷ [])
unfolding contains
NoneTwice-append p [] absent h = (refl, tt)
NoneTwice-append p (x ∷ ps) absent h = (
  ground (arith, contains-append x p ps, absent, h.0, eq_ℤ_comm x p),
  NoneTwice-append p ps (ground (arith, absent)) h.1,
)

contains-retain_others :
    (q p : ℤ) (ps : List ℤ) → contains q ps ≡ false → contains q (retain_others p ps) ≡ false
unfolding contains retain_others
contains-retain_others q p [] absent = refl
contains-retain_others q p (x ∷ ps) absent = ground (arith, absent, contains-retain_others q p ps)

NoneTwice-retain_others : (p : ℤ) (ps : List ℤ) → NoneTwice ps → NoneTwice (retain_others p ps)
unfolding retain_others
NoneTwice-retain_others p [] h = tt
NoneTwice-retain_others p (x ∷ ps) h = elim (Bool-cases (eq_ℤ x p)) [
  | inl e ↦ rw e (NoneTwice-retain_others p ps h.1)
  | inr e ↦ rw e (contains-retain_others x p ps h.0, NoneTwice-retain_others p ps h.1)
]

check_lock-NoneTwice : (ids : List ℤ) (c : Call) → NoneTwice ids → NoneTwice (check_lock ids c).0
unfolding check_lock
check_lock-NoneTwice ids c h = elim (Bool-cases (contains c.product.pid ids)) [
  | inl e ↦ rw (e, check_lock) h
  | inr e ↦ rw (e, check_lock) (NoneTwice-append c.product.pid ids e h)
]

Move-NoneTwice :
    {ids : List ℤ} {c : Call} {ids' : List ℤ} {c' : Call}
    → Move ids c ids' c'
    → NoneTwice ids
    → NoneTwice ids'
unfolding give_back
Move-NoneTwice {ids} {c} (check e) h = check_lock-NoneTwice ids c h
Move-NoneTwice (deliver e) h = h
Move-NoneTwice {ids} {c} (release e) h = NoneTwice-retain_others c.product.pid ids h
Move-NoneTwice (reply status e e') h = h
Move-NoneTwice (notice e e') h = h

Step-NoneTwice : {s t : Minters} → Step s t → NoneTwice s.lock_ids → NoneTwice t.lock_ids
Step-NoneTwice (pick before after move) h = Move-NoneTwice move h

-- However the tasks of any number of calls interleave, no id is in the list of locked ids twice, if
-- that holds at the start.
pub lock_ids-NoneTwice :
    {s : Minters} {n : ℕ} {t : Minters} → Run s n t → NoneTwice s.lock_ids → NoneTwice t.lock_ids
lock_ids-NoneTwice start h = h
lock_ids-NoneTwice (later r step) h = Step-NoneTwice step (lock_ids-NoneTwice r h)
