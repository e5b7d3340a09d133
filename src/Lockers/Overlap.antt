-- ===== src/Lockers/Overlap.antt =====
-- What the lock of src/lockers/llm.rs does not prevent.
use mathlib.Core.Path.{subst}
use hoopoe.Base.{ℤ, List, [], ◌∷◌, ◌++◌, true, false, some, ◌≡◌, refl, arith, eq_ℤ_refl}
use hoopoe.Lockers.Minting.{
  Product, minting, locked, finished, Call, at_work, sent, over, start_minting, check_lock,
  contains, retain_others, send_product, mint, give_back, select_status,
}
use hoopoe.Lockers.Steps.{Minters, check, deliver, release, reply, Step, pick, Run, start, later}

step_check :
    (before after : List Call) (ids ids' : List ℤ) (c c' : Call)
    → c.checked ≡ false
    → check_lock ids c ≡ (ids', c')
    → Step
        (record { lock_ids = ids; calls = before ++ c ∷ after })
        (record { lock_ids = ids'; calls = before ++ c' ∷ after })
step_check before after ids ids' c c' e same =
    subst
      (λ p.
        Step (record { lock_ids = ids; calls = before ++ c ∷ after })
          (record { lock_ids = p.0; calls = before ++ p.1 ∷ after }))
      same (pick before after (check e))

step_release :
    (before after : List Call) (ids ids' : List ℤ) (c c' : Call)
    → c.minter ≡ sent
    → give_back ids c ≡ (ids', c')
    → Step
        (record { lock_ids = ids; calls = before ++ c ∷ after })
        (record { lock_ids = ids'; calls = before ++ c' ∷ after })
step_release before after ids ids' c c' e same =
    subst
      (λ p.
        Step (record { lock_ids = ids; calls = before ++ c ∷ after })
          (record { lock_ids = p.0; calls = before ++ p.1 ∷ after }))
      same (pick before after (release e))

module _ (p q : Product) (same : q.pid ≡ p.pid) where
  abbrev holder : Call
  holder = record (start_minting p) { checked = true; statuses = locked ∷ []; answer = some locked }

  abbrev refused_call : Call
  refused_call = record (start_minting q) {
    checked = true;
    statuses = minting ∷ [];
    answer = some minting;
  }

  abbrev minted : Product
  minted = record q { is_minted = true }

  check_first :
      check_lock [] (start_minting p)
      ≡ (p.pid ∷ [], record (start_minting p) { checked = true; statuses = locked ∷ [] })
  unfolding check_lock contains start_minting
  check_first = refl

  check_second :
      check_lock (p.pid ∷ []) (start_minting q)
      ≡ (p.pid ∷ [], record (start_minting q) { checked = true; statuses = minting ∷ [] })
  unfolding check_lock contains start_minting
  check_second = ground (arith, same, eq_ℤ_refl p.pid)

  after_delivery : Call
  after_delivery = record refused_call { minter = sent; products = minted ∷ [] }

  give_back_second :
      give_back (p.pid ∷ []) (record refused_call { minter = sent; products = minted ∷ [] }) ≡ (
        [],
        record refused_call {
          minter = over;
          products = minted ∷ [];
          statuses = minting ∷ finished ∷ [];
        },
      )
  unfolding give_back retain_others start_minting
  give_back_second = ground (arith, same, eq_ℤ_refl p.pid)

  -- Of two calls for one product, with no id locked before, the first can be answered that the
  -- product is locked for it and the second that it is being minted; and then the second mints it
  -- all the same, and takes the id off the list while the first is still at work.
  pub second_call_mints_too :
      (t : Minters) × (first second : Call) × Run
        (record { lock_ids = []; calls = start_minting p ∷ start_minting q ∷ [] })
        6
        t
      × (t.lock_ids ≡ [])
      × (t.calls ≡ first ∷ second ∷ [])
      × (first.answer ≡ some locked)
      × (first.minter ≡ at_work)
      × (second.answer ≡ some minting)
      × (second.products ≡ record q { is_minted = true } ∷ [])
  unfolding start_minting select_status send_product mint
  second_call_mints_too =
      let checked_first = record (start_minting p) { checked = true; statuses = locked ∷ [] } in
      let checked_second = record (start_minting q) { checked = true; statuses = minting ∷ [] } in
      let sender = record refused_call { minter = sent; products = minted ∷ [] } in
      let ended = record refused_call {
        minter = over;
        products = minted ∷ [];
        statuses = minting ∷ finished ∷ [];
      } in
      (
        record { lock_ids = []; calls = holder ∷ ended ∷ [] },
        holder,
        ended,
        later
            (later
              (later
                (later
                  (later
                    (later start (
                      step_check [] (start_minting q ∷ []) [] (p.pid ∷ []) (start_minting p)
                        checked_first refl check_first))
                    (pick [] (start_minting q ∷ []) (reply locked refl refl)))
                  (step_check (holder ∷ []) [] (p.pid ∷ []) (p.pid ∷ []) (start_minting q)
                    checked_second refl check_second))
                (pick (holder ∷ []) [] (reply minting refl refl)))
              (pick (holder ∷ []) [] (deliver refl)))
            (step_release (holder ∷ []) [] (p.pid ∷ []) [] sender ended refl give_back_second),
        refl,
        refl,
        refl,
        refl,
        refl,
        refl,
      )
