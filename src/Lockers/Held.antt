-- ===== src/Lockers/Held.antt =====
-- Who has put an id on the list of locked ids of src/lockers/llm.rs, if no id is on it at first.
use mathlib.Core.Path.{subst, sym}
use hoopoe.Base.{
  ℤ, List, [], ◌∷◌, ◌++◌, Bool, true, false, ◌≡◌, ◌≢◌, ◌⊎◌, refl, arith, inl, inr, Bool-cases, All,
  eq_ℤ, eq_ℤ-true, ◌∙◌,
}
use hoopoe.Lockers.Minting.{
  PurchasingStatus, minting, locked, finished, Minter, at_work, sent, over, Call, contains,
  retain_others,
}
use hoopoe.Lockers.Steps.{Minters}
use hoopoe.Lockers.Unique.{eq_ℤ_comm}
use hoopoe.Lockers.Calls.{Statuses, CallInv}

-- One of the calls.
abbrev pub Some : (Call → Type 0) → List Call → Type 0
Some P [] = ⊥
Some P (c ∷ cs) = P c ⊎ Some P cs

-- The call's task that looks at the lock has locked its id.
abbrev pub has_locked : List PurchasingStatus → Bool
has_locked [] = false
has_locked (locked ∷ ss) = true
has_locked (s ∷ ss) = has_locked ss

abbrev pub Locker : ℤ → Call → Type 0
Locker id c = (c.product.pid ≡ id) × (has_locked c.statuses ≡ true)

-- It did so before the call's minting was over, which it is not yet, or after it.
abbrev pub Holder : ℤ → Call → Type 0
Holder id c =
    (c.product.pid ≡ id)
    × (((c.statuses ≡ locked ∷ []) × (c.minter ≢ over)) ⊎ (c.statuses ≡ finished ∷ locked ∷ []))

abbrev pub Looked : ℤ → Call → Type 0
Looked id c = (c.product.pid ≡ id) × (c.checked ≡ true)

pub has_locked-append :
    (s t : List PurchasingStatus) → has_locked s ≡ true → has_locked (s ++ t) ≡ true
has_locked-append [] t e = cc
has_locked-append (locked ∷ s) t e = refl
has_locked-append (minting ∷ s) t e = has_locked-append s t e
has_locked-append (finished ∷ s) t e = has_locked-append s t e

pub has_locked-last : (s : List PurchasingStatus) → has_locked (s ++ locked ∷ []) ≡ true
has_locked-last [] = refl
has_locked-last (locked ∷ s) = refl
has_locked-last (minting ∷ s) = has_locked-last s
has_locked-last (finished ∷ s) = has_locked-last s

pub Holder-Locker : (id : ℤ) (c : Call) → Holder id c → Locker id c
Holder-Locker id c (e, inl (s, m)) = (e, rw s refl)
Holder-Locker id c (e, inr s) = (e, rw s refl)

pub Some-map :
    (P Q : Call → Type 0) (cs : List Call) → ((x : Call) → P x → Q x) → Some P cs → Some Q cs
Some-map P Q [] f e = elim e [ ]
Some-map P Q (c ∷ cs) f (inl p) = inl (f c p)
Some-map P Q (c ∷ cs) f (inr p) = inr (Some-map P Q cs f p)

pub Some-replace :
    (P Q : Call → Type 0) (before after : List Call) (c c' : Call)
    → ((x : Call) → P x → Q x)
    → (P c → Q c')
    → Some P (before ++ c ∷ after)
    → Some Q (before ++ c' ∷ after)
Some-replace P Q [] after c c' f g (inl p) = inl (g p)
Some-replace P Q [] after c c' f g (inr p) = inr (Some-map P Q after f p)
Some-replace P Q (x ∷ before) after c c' f g (inl p) = inl (f x p)
Some-replace P Q (x ∷ before) after c c' f g (inr p) =
    inr (Some-replace P Q before after c c' f g p)

pub Some-here :
    (Q : Call → Type 0) (before after : List Call) (c : Call) → Q c → Some Q (before ++ c ∷ after)
Some-here Q [] after c q = inl q
Some-here Q (x ∷ before) after c q = inr (Some-here Q before after c q)

-- A task that has not looked has locked nothing.
no_verdict : (m : Minter) (s : List PurchasingStatus) → Statuses false m s → has_locked s ≡ false
no_verdict at_work s e = rw e refl
no_verdict sent s e = rw e refl
no_verdict over s e = rw e refl

pub not_Locker : (id : ℤ) (c : Call) → c.checked ≡ false → CallInv c → has_locked c.statuses ≡ false
not_Locker id c e h =
    no_verdict c.minter c.statuses (subst (λ b. Statuses b c.minter c.statuses) e h.tells)

pub locks :
    (m : Minter) (s : List PurchasingStatus)
    → Statuses false m s
    → ((s ++ locked ∷ [] ≡ locked ∷ []) × (m ≢ over)) ⊎ (s ++ locked ∷ [] ≡ finished ∷ locked ∷ [])
locks at_work s e = inl (rw e refl, λ o. cc)
locks sent s e = inl (rw e refl, λ o. cc)
locks over s e = inr (rw e refl)

pub retained :
    (id pid : ℤ) (ids : List ℤ)
    → contains id (retain_others pid ids) ≡ true
    → (contains id ids ≡ true) × (eq_ℤ pid id ≡ false)
unfolding contains retain_others
retained id pid [] e = cc
retained id pid (p ∷ ids) e = elim (Bool-cases (eq_ℤ p pid)) [
  | inl same ↦
      let (kept, other) = retained id pid ids (ground (arith, e, same)) in
      (ground (arith, kept), other)
  | inr differs ↦ elim (Bool-cases (eq_ℤ p id)) [
    | inl this ↦ (
      ground (arith, this),
      subst (λ q. eq_ℤ pid q ≡ false) (eq_ℤ-true p id this)
          (ground (arith, eq_ℤ_comm p pid, differs)),
    )
    | inr that ↦
        let (kept, other) = retained id pid ids (ground (arith, e, differs, that)) in
        (ground (arith, kept), other)
  ]
]

-- What holds of a run, from an empty list of locks.
pub record LockInv (s : Minters) : Type 0 where
  pub calls : All CallInv s.calls
  pub held : (id : ℤ) → contains id s.lock_ids ≡ true → Some (Holder id) s.calls
  pub looked : (id : ℤ) → Some (Looked id) s.calls → Some (Locker id) s.calls

pub All-replace :
    (P : Call → Type 0) (before after : List Call) (c c' : Call)
    → (P c → P c')
    → All P (before ++ c ∷ after)
    → All P (before ++ c' ∷ after)
All-replace P [] after c c' f h = (f h.0, h.1)
All-replace P (x ∷ before) after c c' f h = (h.0, All-replace P before after c c' f h.1)

pub All-here :
    (P : Call → Type 0) (before after : List Call) (c : Call) → All P (before ++ c ∷ after) → P c
All-here P [] after c h = h.0
All-here P (x ∷ before) after c h = All-here P before after c h.1

module _ (before after : List Call) (c : Call) (ids : List ℤ) where
  abbrev pub at : List ℤ → Call → Minters
  at ids' c' = record { lock_ids = ids'; calls = before ++ c' ∷ after }

  -- A move that does not look at the lock, and after which an id is on the list only if it was, and
  -- held by the same call if by this one.
  pub other_move :
      (ids' : List ℤ) (c' : Call)
      → CallInv c'
      → c'.checked ≡ c.checked
      → c'.product.pid ≡ c.product.pid
      → (has_locked c.statuses ≡ true → has_locked c'.statuses ≡ true)
      → ((id : ℤ)
          → contains id ids' ≡ true
          → (contains id ids ≡ true) × (Holder id c → Holder id c'))
      → LockInv (at ids c)
      → LockInv (at ids' c')
  other_move ids' c' inv checked pid lock keeps h = record {
    calls = All-replace CallInv before after c c' (λ x. inv) h.calls;
    held = λ id e.
        Some-replace (Holder id) (Holder id) before after c c' (λ x p. p) (keeps id e).1
          (h.held id (keeps id e).0);
    looked = λ id e.
        Some-replace (Locker id) (Locker id) before after c c' (λ x p. p)
          (λ p. (pid ∙ p.0, lock p.1))
          (h.looked id (
            Some-replace (Looked id) (Looked id) before after c' c (λ x p. p)
              (λ p. (sym pid ∙ p.0, sym checked ∙ p.1)) e));
  }
