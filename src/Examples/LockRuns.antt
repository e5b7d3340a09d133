-- ===== src/Examples/LockRuns.antt =====
-- The theorems on src/lockers/llm.rs at concrete inputs.
use hoopoe.Base.{ℕ, pos, [], ◌∷◌, true, false, some, ◌≡◌, refl, ◌⊎◌, ◌<◌}
use hoopoe.Lockers.Minting.{Product, minting, locked, at_work, Call, start_minting, check_lock}
use hoopoe.Lockers.Steps.{Minters, Run, Step, start, later, pick, check}
use hoopoe.Lockers.Unique.{NoneTwice, lock_ids-NoneTwice}
use hoopoe.Lockers.Finished.{minting_terminates, MintingOutcome}
use hoopoe.Lockers.Overlap.{second_call_mints_too}

abbrev product : Product
product = record { pid = pos 5; buyer_id = pos 1; is_minted = false }

abbrev other_buyer : Product
other_buyer = record product { buyer_id = pos 2 }

abbrev both : Minters
both = record { lock_ids = []; calls = start_minting product ∷ start_minting other_buyer ∷ [] }

-- The first call's task looks at the lock.
not_looked : (start_minting product).checked ≡ false
unfolding start_minting
not_looked = refl

abbrev locked_once : Minters
locked_once = record {
  lock_ids = (check_lock [] (start_minting product)).0;
  calls = (check_lock [] (start_minting product)).1 ∷ start_minting other_buyer ∷ [];
}

one_step : Run both 1 locked_once
one_step =
    later start
      (pick {c = start_minting product} [] (start_minting other_buyer ∷ []) (check not_looked))

lock_ids-NoneTwice_example : NoneTwice locked_once.lock_ids
lock_ids-NoneTwice_example = lock_ids-NoneTwice one_step tt

abbrev steps : ℕ
steps = 1

minting_terminates_example :
    ((steps < 8) × ((u : Minters) × Step locked_once u))
    ⊎ ((steps ≡ 8) × MintingOutcome (product ∷ other_buyer ∷ []) locked_once)
minting_terminates_example =
    minting_terminates (product ∷ other_buyer ∷ []) steps locked_once one_step

second_call_mints_too_example :
    (t : Minters) × (first second : Call) × Run both 6 t
    × (t.lock_ids ≡ [])
    × (t.calls ≡ first ∷ second ∷ [])
    × (first.answer ≡ some locked)
    × (first.minter ≡ at_work)
    × (second.answer ≡ some minting)
    × (second.products ≡ record other_buyer { is_minted = true } ∷ [])
second_call_mints_too_example = second_call_mints_too product other_buyer refl
