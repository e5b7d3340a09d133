-- ===== src/Lockers/Locks.antt =====
-- The steps of src/lockers/llm.rs and the list of locked ids, from an empty list on.
use mathlib.Core.Path.{subst}
use hoopoe.Base.{
  ℤ, List, [], ◌∷◌, ◌++◌, true, false, ◌≡◌, refl, arith, inl, inr, Bool-cases, eq_ℤ, eq_ℤ-true,
  eq_ℤ_refl,
}
use hoopoe.Lockers.Minting.{
  minting, locked, finished, at_work, Call, mint, contains, check_lock, send_product, give_back,
}
use hoopoe.Lockers.Steps.{Minters, Move, check, deliver, release, reply, notice, Step, pick}
use hoopoe.Lockers.Unique.{contains-append}
use hoopoe.Lockers.Calls.{Statuses, CallInv, Move-CallInv}
use hoopoe.Lockers.Held.{
  Locker, Holder, Looked, has_locked-append, has_locked-last, Holder-Locker, Some-replace,
  Some-here, not_Locker, locks, retained, LockInv, All-replace, All-here, at, other_move,
}

module _ (before after : List Call) (c : Call) (ids : List ℤ) where
  -- The call's own task has not looked, so that the call holds nothing.
  holds_nothing : (id : ℤ) → c.checked ≡ false → CallInv c → Holder id c → ⊥
  holds_nothing id e inv p = ground (arith, not_Locker id c e inv, (Holder-Locker id c p).1)

  -- The id is on the list, and the verdict is `minting`.
  check_there :
      c.checked ≡ false
      → contains c.product.pid ids ≡ true
      → CallInv (record c { checked = true; statuses = c.statuses ++ minting ∷ [] })
      → LockInv (at before after c ids ids c)
      → LockInv (
          at before after c ids ids
            (record c { checked = true; statuses = c.statuses ++ minting ∷ [] }))
  check_there e there inv h =
      let c' = record c { checked = true; statuses = c.statuses ++ minting ∷ [] } in
      let own = All-here CallInv before after c h.calls in
      record {
        calls = All-replace CallInv before after c c' (λ x. inv) h.calls;
        held = λ id on.
            Some-replace (Holder id) (Holder id) before after c c' (λ x p. p)
              (λ p. absurd (holds_nothing id e own p)) (h.held id on);
        looked = λ id some_looked. elim (Bool-cases (eq_ℤ c.product.pid id)) [
          | inl this ↦
              Some-replace (Holder id) (Locker id) before after c c' (Holder-Locker id)
                (λ p. absurd (holds_nothing id e own p))
                (h.held id
                  (subst (λ q. contains q ids ≡ true) (eq_ℤ-true c.product.pid id this) there))
          | inr another ↦
              Some-replace (Locker id) (Locker id) before after c c' (λ x p. p)
                (λ p. (p.0, has_locked-append c.statuses (minting ∷ []) p.1))
                (h.looked id (
                  Some-replace (Looked id) (Looked id) before after c' c (λ x p. p)
                    (λ p. absurd (ground (arith, another, p.0, eq_ℤ_refl id))) some_looked))
        ];
      }

  -- The id is not on the list, and is put there.
  check_absent :
      c.checked ≡ false
      → CallInv (record c { checked = true; statuses = c.statuses ++ locked ∷ [] })
      → LockInv (at before after c ids ids c)
      → LockInv (
          at before after c ids
            (ids ++ c.product.pid ∷ [])
            (record c { checked = true; statuses = c.statuses ++ locked ∷ [] }))
  check_absent e inv h =
      let c' = record c { checked = true; statuses = c.statuses ++ locked ∷ [] } in
      let own = All-here CallInv before after c h.calls in
      let told =
        locks c.minter c.statuses (subst (λ b. Statuses b c.minter c.statuses) e own.tells) in
      record {
        calls = All-replace CallInv before after c c' (λ x. inv) h.calls;
        held = λ id on. elim (Bool-cases (eq_ℤ c.product.pid id)) [
          | inl this ↦ Some-here (Holder id) before after c' (eq_ℤ-true c.product.pid id this, told)
          | inr another ↦
              Some-replace (Holder id) (Holder id) before after c c' (λ x p. p)
                (λ p. absurd (holds_nothing id e own p))
                (h.held id (ground (arith, on, another, contains-append id c.product.pid ids)))
        ];
        looked = λ id some_looked. elim (Bool-cases (eq_ℤ c.product.pid id)) [
          | inl this ↦
              Some-here (Locker id) before after c'
                (eq_ℤ-true c.product.pid id this, has_locked-last c.statuses)
          | inr another ↦
              Some-replace (Locker id) (Locker id) before after c c' (λ x p. p)
                (λ p. (p.0, has_locked-append c.statuses (locked ∷ []) p.1))
                (h.looked id (
                  Some-replace (Looked id) (Looked id) before after c' c (λ x p. p)
                    (λ p. absurd (ground (arith, another, p.0, eq_ℤ_refl id))) some_looked))
        ];
      }

  check-LockInv :
      c.checked ≡ false
      → CallInv (check_lock ids c).1
      → LockInv (at before after c ids ids c)
      → LockInv (at before after c ids (check_lock ids c).0 (check_lock ids c).1)
  unfolding check_lock
  check-LockInv e = elim (Bool-cases (contains c.product.pid ids)) [
    | inl there ↦ rw (there, check_lock) (check_there e there)
    | inr absent ↦ rw (absent, check_lock) (check_absent e)
  ]

  deliver-LockInv :
      c.minter ≡ at_work
      → CallInv (send_product c)
      → LockInv (at before after c ids ids c)
      → LockInv (at before after c ids ids (send_product c))
  unfolding send_product mint
  deliver-LockInv e inv =
      other_move before after c ids ids (send_product c) inv refl refl (λ l. l)
        (λ id on.
          (on, λ p. (p.0, elim p.1 [ inl early ↦ inl (early.0, λ o. cc) | inr late ↦ inr late ])))

  release-LockInv :
      CallInv (give_back ids c).1
      → LockInv (at before after c ids ids c)
      → LockInv (at before after c ids (give_back ids c).0 (give_back ids c).1)
  unfolding give_back
  release-LockInv inv =
      other_move before after c ids (give_back ids c).0 (give_back ids c).1 inv refl refl
        (has_locked-append c.statuses (finished ∷ []))
        (λ id on.
          let (was, another) = retained id c.product.pid ids on in
          (was, λ p. absurd (ground (arith, another, p.0, eq_ℤ_refl id))))

Move-LockInv :
    (before after : List Call) {ids : List ℤ} {c : Call} {ids' : List ℤ} {c' : Call}
    → Move ids c ids' c'
    → CallInv c'
    → LockInv (record { lock_ids = ids; calls = before ++ c ∷ after })
    → LockInv (record { lock_ids = ids'; calls = before ++ c' ∷ after })
Move-LockInv before after {ids = ids} {c = c} (check e) = check-LockInv before after c ids e
Move-LockInv before after {ids = ids} {c = c} (deliver e) = deliver-LockInv before after c ids e
Move-LockInv before after {ids = ids} {c = c} (release e) = release-LockInv before after c ids
Move-LockInv before after {ids = ids} {c = c} {c' = c'} (reply status e e') =
    λ inv. other_move before after c ids ids c' inv refl refl (λ l. l) (λ id on. (on, λ p. p))
Move-LockInv before after {ids = ids} {c = c} {c' = c'} (notice e e') =
    λ inv. other_move before after c ids ids c' inv refl refl (λ l. l) (λ id on. (on, λ p. p))

pub Step-LockInv : {s t : Minters} → Step s t → LockInv s → LockInv t
Step-LockInv (pick {c = c} before after move) h =
    Move-LockInv before after move (Move-CallInv move (All-here CallInv before after c h.calls)) h
