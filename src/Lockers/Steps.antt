-- ===== src/Lockers/Steps.antt =====
-- Calls of `start_minting` at once, over the one list of locked ids of src/constants/mod.rs. Any task
-- of any call may run next.
use hoopoe.Base.{ℕ, zero, suc, ℤ, List, ◌∷◌, ◌++◌, false, none, some, ◌≡◌}
use hoopoe.Lockers.Minting.{
  PurchasingStatus, finished, Call, at_work, sent, over, check_lock, send_product, give_back,
  select_status,
}

pub record Minters : Type 0 where
  pub lock_ids : List ℤ
  pub calls : List Call

-- A step of one call.
pub data Move (ids : List ℤ) (c : Call) : List ℤ → Call → Type 0 where
  check : c.checked ≡ false → Move ids c (check_lock ids c).0 (check_lock ids c).1
  deliver : c.minter ≡ at_work → Move ids c ids (send_product c)
  release : c.minter ≡ sent → Move ids c (give_back ids c).0 (give_back ids c).1
  reply :
      (status : PurchasingStatus)
      → c.answer ≡ none
      → select_status c ≡ some status
      → Move ids c ids (record c { answer = some status })
  notice : c.answer ≡ none → c.minter ≡ over → Move ids c ids (record c { answer = some finished })

-- A step of one of the calls, the others as they are.
pub data Step : Minters → Minters → Type 0 where
  pick :
      {ids ids' : List ℤ} {c c' : Call} (before after : List Call)
      → Move ids c ids' c'
      → Step
          (record { lock_ids = ids; calls = before ++ c ∷ after })
          (record { lock_ids = ids'; calls = before ++ c' ∷ after })

-- Runs, with the number of their steps.
pub data Run (s : Minters) : ℕ → Minters → Type 0 where
  start : Run s zero s
  later : {n : ℕ} {t u : Minters} → Run s n t → Step t u → Run s (suc n) u
