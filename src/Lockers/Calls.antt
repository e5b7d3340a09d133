-- ===== src/Lockers/Calls.antt =====
-- What becomes of one call of src/lockers/llm.rs: the product that it sends, its statuses, its answer.
use mathlib.Core.Path.{subst}
use hoopoe.Base.{
  ℤ, List, [], ◌∷◌, ◌++◌, Bool, true, false, Option, none, some, ◌≡◌, ◌⊎◌, refl, arith, inl, inr,
  Bool-cases,
}
use hoopoe.Lockers.Minting.{
  Product, PurchasingStatus, minting, locked, finished, Minter, at_work, sent, over, Call,
  start_minting, mint, contains, check_lock, send_product, give_back, select_status,
}
use hoopoe.Lockers.Steps.{Move, check, deliver, release, reply, notice}

-- The product with the mark that it is minted, once.
abbrev pub minted : Product → Minter → List Product
minted p at_work = []
minted p sent = record p { is_minted = true } ∷ []
minted p over = record p { is_minted = true } ∷ []

abbrev pub IsVerdict : PurchasingStatus → Type 0
IsVerdict v = (v ≡ minting) ⊎ (v ≡ locked)

-- The statuses are those of the tasks that are over, in the order of their ends: the verdict on the
-- lock, and that the minting is finished.
abbrev pub Statuses : Bool → Minter → List PurchasingStatus → Type 0
Statuses false at_work s = s ≡ []
Statuses false sent s = s ≡ []
Statuses false over s = s ≡ finished ∷ []
Statuses true at_work s = (v : PurchasingStatus) × IsVerdict v × (s ≡ v ∷ [])
Statuses true sent s = (v : PurchasingStatus) × IsVerdict v × (s ≡ v ∷ [])
Statuses true over s =
    (v : PurchasingStatus) × IsVerdict v × ((s ≡ v ∷ finished ∷ []) ⊎ (s ≡ finished ∷ v ∷ []))

abbrev pub first_of : List PurchasingStatus → Option PurchasingStatus
first_of [] = none
first_of (s ∷ ss) = some s

-- The answer is the first status, or that the minting task is over.
abbrev pub IsAnswer : Option PurchasingStatus → Minter → List PurchasingStatus → Type 0
IsAnswer none m s = Unit
IsAnswer (some a) m s = ((a ≡ finished) × (m ≡ over)) ⊎ (first_of s ≡ some a)

pub record CallInv (c : Call) : Type 0 where
  pub sends : c.products ≡ minted c.product c.minter
  pub tells : Statuses c.checked c.minter c.statuses
  pub replies : IsAnswer c.answer c.minter c.statuses

Statuses-check :
    (v : PurchasingStatus) (m : Minter) (s : List PurchasingStatus)
    → IsVerdict v
    → Statuses false m s
    → Statuses true m (s ++ v ∷ [])
Statuses-check v at_work s i e = (v, i, rw e refl)
Statuses-check v sent s i e = (v, i, rw e refl)
Statuses-check v over s i e = (v, i, inr (rw e refl))

Statuses-release :
    (checked : Bool) (s : List PurchasingStatus)
    → Statuses checked sent s
    → Statuses checked over (s ++ finished ∷ [])
Statuses-release false s e = rw e refl
Statuses-release true s (v, i, e) = (v, i, inl (rw e refl))

Statuses-deliver :
    (checked : Bool) (s : List PurchasingStatus)
    → Statuses checked at_work s
    → Statuses checked sent s
Statuses-deliver false s e = e
Statuses-deliver true s e = e

first_of-append :
    (s t : List PurchasingStatus) {a : PurchasingStatus}
    → first_of s ≡ some a
    → first_of (s ++ t) ≡ some a
first_of-append [] t e = cc
first_of-append (x ∷ s) t e = e

-- More statuses, and a minter that stays over if it is, keep the answer.
IsAnswer-append :
    (a : Option PurchasingStatus) (m m' : Minter) (s t : List PurchasingStatus)
    → (m ≡ over → m' ≡ over)
    → IsAnswer a m s
    → IsAnswer a m' (s ++ t)
IsAnswer-append none m m' s t keeps i = tt
IsAnswer-append (some a) m m' s t keeps (inl (e, o)) = inl (e, keeps o)
IsAnswer-append (some a) m m' s t keeps (inr e) = inr (first_of-append s t e)

IsAnswer-moves :
    (a : Option PurchasingStatus) (m m' : Minter) (s : List PurchasingStatus)
    → (m ≡ over → m' ≡ over)
    → IsAnswer a m s
    → IsAnswer a m' s
IsAnswer-moves none m m' s keeps i = tt
IsAnswer-moves (some a) m m' s keeps (inl (e, o)) = inl (e, keeps o)
IsAnswer-moves (some a) m m' s keeps (inr e) = inr e

-- The task that looks at the lock tells one verdict, and leaves the rest of the call alone.
told :
    (v : PurchasingStatus) (c : Call)
    → IsVerdict v
    → c.checked ≡ false
    → CallInv c
    → CallInv (record c { checked = true; statuses = c.statuses ++ v ∷ [] })
told v c i e h = record {
  sends = h.sends;
  tells =
      Statuses-check v c.minter c.statuses i
        (subst (λ b. Statuses b c.minter c.statuses) e h.tells);
  replies = IsAnswer-append c.answer c.minter c.minter c.statuses (v ∷ []) (λ o. o) h.replies;
}

check_lock-CallInv :
    (ids : List ℤ) (c : Call) → c.checked ≡ false → CallInv c → CallInv (check_lock ids c).1
unfolding check_lock
check_lock-CallInv ids c e h = elim (Bool-cases (contains c.product.pid ids)) [
  | inl there ↦ rw (there, check_lock) (told minting c (inl refl) e h)
  | inr absent ↦ rw (absent, check_lock) (told locked c (inr refl) e h)
]

send_product-CallInv : (c : Call) → c.minter ≡ at_work → CallInv c → CallInv (send_product c)
unfolding send_product mint
send_product-CallInv c e h = record {
  sends = ground (arith, h.sends, e);
  tells =
      Statuses-deliver c.checked c.statuses
        (subst (λ m. Statuses c.checked m c.statuses) e h.tells);
  replies = IsAnswer-moves c.answer c.minter sent c.statuses (λ o. cc) h.replies;
}

give_back-CallInv :
    (ids : List ℤ) (c : Call) → c.minter ≡ sent → CallInv c → CallInv (give_back ids c).1
unfolding give_back
give_back-CallInv ids c e h = record {
  sends = ground (arith, h.sends, e);
  tells =
      Statuses-release c.checked c.statuses
        (subst (λ m. Statuses c.checked m c.statuses) e h.tells);
  replies = IsAnswer-append c.answer c.minter over c.statuses (finished ∷ []) (λ o. refl) h.replies;
}

first_of-select :
    (c : Call) {a : PurchasingStatus} → select_status c ≡ some a → first_of c.statuses ≡ some a
unfolding select_status
first_of-select c e = ground (arith, e)

pub Move-CallInv :
    {ids : List ℤ} {c : Call} {ids' : List ℤ} {c' : Call}
    → Move ids c ids' c'
    → CallInv c
    → CallInv c'
Move-CallInv {ids = ids} {c = c} (check e) h = check_lock-CallInv ids c e h
Move-CallInv {c = c} (deliver e) h = send_product-CallInv c e h
Move-CallInv {ids = ids} {c = c} (release e) h = give_back-CallInv ids c e h
Move-CallInv {c = c} (reply status e e') h = record {
  sends = h.sends;
  tells = h.tells;
  replies = inr (first_of-select c e');
}
Move-CallInv (notice e e') h = record { sends = h.sends; tells = h.tells; replies = inl (refl, e') }

pub start-CallInv : (p : Product) → CallInv (start_minting p)
unfolding start_minting
start-CallInv p = record { sends = refl; tells = refl; replies = tt }
