-- ===== src/Lockers/Bounded.antt =====
-- Calls of src/lockers/llm.rs come to their end: how many steps they take.
use mathlib.Core.Path.{subst}
use mathlib.Core.List.{append_assoc}
use hoopoe.Base.{
  ℕ, ◌+◌, ◌*◌, ◌<◌, ℤ, List, [], ◌∷◌, ◌++◌, map, false, Option, none, some, ◌≡◌, ◌⊎◌, refl, arith,
  inl, inr, Bool-cases, Option-cases, if◌then◌else◌, length,
}
use hoopoe.Lockers.Minting.{
  Product, Call, Minter, at_work, sent, over, start_minting, contains, check_lock, send_product,
  give_back, PurchasingStatus, finished,
}
use hoopoe.Lockers.Steps.{
  Minters, Move, check, deliver, release, reply, notice, Step, pick, Run, start, later,
}

-- What is left to do in a call.
abbrev minter_work : Minter → ℕ
minter_work at_work = 2
minter_work sent = 1
minter_work over = 0

abbrev answer_work : Option PurchasingStatus → ℕ
answer_work none = 1
answer_work (some status) = 0

abbrev pub work : Call → ℕ
work c = (if c.checked then 0 else 1) + minter_work c.minter + answer_work c.answer

abbrev pub total_work : List Call → ℕ
total_work [] = 0
total_work (c ∷ cs) = work c + total_work cs

check_lock-work :
    (ids : List ℤ) (c : Call) → c.checked ≡ false → work (check_lock ids c).1 + 1 ≡ work c
unfolding check_lock
check_lock-work ids c e = elim (Bool-cases (contains c.product.pid ids)) [
  | inl there ↦ rw (there, check_lock) (ground (arith, e))
  | inr absent ↦ rw (absent, check_lock) (ground (arith, e))
]

Move-work :
    {ids : List ℤ} {c : Call} {ids' : List ℤ} {c' : Call}
    → Move ids c ids' c'
    → work c' + 1 ≡ work c
unfolding send_product give_back
Move-work {ids} {c} (check e) = check_lock-work ids c e
Move-work (deliver e) = ground (arith, e)
Move-work (release e) = ground (arith, e)
Move-work (reply status e e') = ground (arith, e)
Move-work (notice e e') = ground (arith, e)

total_work-append : (cs ds : List Call) → total_work (cs ++ ds) ≡ total_work cs + total_work ds
total_work-append [] ds = omega arith
total_work-append (c ∷ cs) ds = omega (arith, total_work-append cs ds)

Step-work : {s t : Minters} → Step s t → total_work t.calls + 1 ≡ total_work s.calls
Step-work (pick {c = c} {c' = c'} before after move) = omega (
  arith,
  Move-work move,
  total_work-append before (c ∷ after),
  total_work-append before (c' ∷ after),
)

Run-work :
    {s : Minters} {n : ℕ} {t : Minters} → Run s n t → n + total_work t.calls ≡ total_work s.calls
Run-work start = omega arith
Run-work (later r step) = omega (arith, Run-work r, Step-work step)

Minter-cases : (m : Minter) → (m ≡ at_work) ⊎ ((m ≡ sent) ⊎ (m ≡ over))
Minter-cases at_work = inl refl
Minter-cases sent = inr (inl refl)
Minter-cases over = inr (inr refl)

-- A call with work left can move.
some-Move :
    (ids : List ℤ) (c : Call) → (work c ≡ 0) ⊎ ((ids' : List ℤ) × (c' : Call) × Move ids c ids' c')
some-Move ids c = elim (Bool-cases c.checked) [
  | inr e ↦ inr ((check_lock ids c).0, (check_lock ids c).1, check e)
  | inl done_check ↦ elim (Minter-cases c.minter) [
    | inl working ↦ inr (ids, send_product c, deliver working)
    | inr (inl e) ↦ inr ((give_back ids c).0, (give_back ids c).1, release e)
    | inr (inr e) ↦ elim (Option-cases c.answer) [
      | inl unanswered ↦ inr (ids, record c { answer = some finished }, notice unanswered e)
      | inr (status, answered) ↦ inl (ground (arith, done_check, e, answered))
    ]
  ]
]

some-Step :
    (ids : List ℤ) (before after : List Call)
    → (total_work after ≡ 0)
      ⊎ ((t : Minters) × Step (record { lock_ids = ids; calls = before ++ after }) t)
some-Step ids before [] = inl refl
some-Step ids before (c ∷ after) = elim (some-Move ids c) [
  | inr (ids', c', move) ↦
      inr (record { lock_ids = ids'; calls = before ++ c' ∷ after }, pick before after move)
  | inl no_work ↦ elim (some-Step ids (before ++ c ∷ []) after) [
    | inl none_left ↦ inl (omega (arith, no_work, none_left))
    | inr (t, step) ↦ inr (
      t,
      subst (λ cs. Step (record { lock_ids = ids; calls = cs }) t)
          (append_assoc before (c ∷ []) after) step,
    )
  ]
]

total_work-start :
    (products : List Product) → total_work (map start_minting products) ≡ 4 * length products
unfolding start_minting
total_work-start [] = refl
total_work-start (p ∷ ps) = omega (arith, total_work-start ps)

Run-work_start :
    (products : List Product) (ids : List ℤ) {n : ℕ} {t : Minters}
    → Run (record { lock_ids = ids; calls = map start_minting products }) n t
    → n + total_work t.calls ≡ 4 * length products
Run-work_start products ids r = omega (arith, Run-work r, total_work-start products)

-- A run that has taken fewer steps than four for each call can go on.
pub Run-goes_on :
    (products : List Product) (ids : List ℤ) {n : ℕ} {t : Minters}
    → Run (record { lock_ids = ids; calls = map start_minting products }) n t
    → ((n < 4 * length products) × ((u : Minters) × Step t u))
      ⊎ ((n ≡ 4 * length products) × (total_work t.calls ≡ 0))
Run-goes_on products ids {t = t} r = elim (some-Step t.lock_ids [] t.calls) [
  | inl idle ↦ inr (omega (arith, idle, Run-work_start products ids r), idle)
  | inr (u, step) ↦ inl (omega (arith, Step-work step, Run-work_start products ids r), (u, step))
]
