-- ===== src/Lockers/Finished.antt =====
-- How calls of `start_minting` at once (src/lockers/llm.rs) come to their end.
use mathlib.Core.Path.{subst}
use hoopoe.Base.{
  ℕ, ◌*◌, ◌<◌, ℤ, List, [], ◌∷◌, ◌++◌, map, true, Option, none, some, ◌≡◌, ◌⊎◌, refl, arith, inl,
  inr, All, length, ap, ◌∙◌, eq_ℤ_refl, Option-cases, Bool-cases,
}
use hoopoe.Lockers.Minting.{
  Product, PurchasingStatus, minting, locked, finished, over, Call, start_minting, contains,
  check_lock, send_product, give_back,
}
use hoopoe.Lockers.Steps.{
  Minters, Move, check, deliver, release, reply, notice, Step, pick, Run, start, later,
}
use hoopoe.Lockers.Calls.{minted, Statuses, first_of, IsAnswer, CallInv, start-CallInv}
use hoopoe.Lockers.Held.{Some, Locker, Holder, Looked, LockInv}
use hoopoe.Lockers.Locks.{Step-LockInv}
use hoopoe.Lockers.Bounded.{work, total_work, Run-goes_on}

-- A call that is over has sent the product once, marked as minted. It has told a verdict on the lock
-- and that the minting is finished, in the order in which the two tasks ended; and its answer is the
-- first of the two, or that the minting is finished.
abbrev pub Ended : Call → Type 0
Ended c =
    (c.products ≡ record c.product { is_minted = true } ∷ [])
    × ((v : PurchasingStatus) × ((v ≡ minting) ⊎ (v ≡ locked))
        × ((c.statuses ≡ v ∷ finished ∷ []) ⊎ (c.statuses ≡ finished ∷ v ∷ [])))
    × ((a : PurchasingStatus) × (c.answer ≡ some a)
        × ((a ≡ finished) ⊎ (first_of c.statuses ≡ some a)))

-- A call for the id whose verdict, that it has locked the id, came after its minting was over.
abbrev pub LockedLate : ℤ → Call → Type 0
LockedLate id c = (c.product.pid ≡ id) × (c.statuses ≡ finished ∷ locked ∷ [])

-- All tasks of all calls are over: what they have done, and what they have left on the list of
-- locked ids.
pub record MintingOutcome (products : List Product) (t : Minters) : Type 0 where
  pub asked : map (λ c. c.product) t.calls ≡ products
  pub ended : All Ended t.calls
  pub locked_once : All (λ c. Some (Locker c.product.pid) t.calls) t.calls
  pub left : All (λ id. Some (LockedLate id) t.calls) t.lock_ids

IsAnswer-some :
    (o : Option PurchasingStatus) (s : List PurchasingStatus) {a : PurchasingStatus}
    → o ≡ some a
    → IsAnswer o over s
    → (a ≡ finished) ⊎ (first_of s ≡ some a)
IsAnswer-some none s e i = cc
IsAnswer-some (some b) s e (inl (f, o)) = inl (ground (arith, e, f))
IsAnswer-some (some b) s e (inr f) = inr (ground (arith, e, f))

idle_call :
    (c : Call)
    → work c ≡ 0
    → (c.checked ≡ true) × (c.minter ≡ over) × ((a : PurchasingStatus) × (c.answer ≡ some a))
idle_call c e = elim (Option-cases c.answer) [
  | inl none_yet ↦ absurd (ground (arith, e, none_yet))
  | inr (a, answered) ↦ (ground (arith, e), ground (arith, e), (a, answered))
]

idle-Ended : (c : Call) → work c ≡ 0 → CallInv c → Ended c
idle-Ended c e h =
    let (looked, done_minting, (a, answered)) = idle_call c e in
    (
      h.sends ∙ ap (minted c.product) done_minting,
      subst (λ m. Statuses true m c.statuses) done_minting
          (subst (λ b. Statuses b c.minter c.statuses) looked h.tells),
      (
        a,
        answered,
        IsAnswer-some c.answer c.statuses answered
            (subst (λ m. IsAnswer c.answer m c.statuses) done_minting h.replies),
      ),
    )

all-Ended : (cs : List Call) → total_work cs ≡ 0 → All CallInv cs → All Ended cs
all-Ended [] e h = tt
all-Ended (c ∷ cs) e h = (idle-Ended c (omega (arith, e)) h.0, all-Ended cs (omega (arith, e)) h.1)

some-LockedLate :
    (id : ℤ) (cs : List Call) → total_work cs ≡ 0 → Some (Holder id) cs → Some (LockedLate id) cs
some-LockedLate id [] e h = h
some-LockedLate id (c ∷ cs) e (inl (pid, inl (s, m))) =
    absurd (m (idle_call c (omega (arith, e))).1)
some-LockedLate id (c ∷ cs) e (inl (pid, inr s)) = inl (pid, s)
some-LockedLate id (c ∷ cs) e (inr h) = inr (some-LockedLate id cs (omega (arith, e)) h)

All-contains :
    (P : ℤ → Type 0) (ids : List ℤ) → ((id : ℤ) → contains id ids ≡ true → P id) → All P ids
unfolding contains
All-contains P [] h = tt
All-contains P (id ∷ ids) h = (
  h id (ground (arith, eq_ℤ_refl id)),
  All-contains P ids (λ other on. h other (ground (arith, on))),
)

-- What holds of the id of every call that has looked, if all have.
All-looked :
    (P : ℤ → Type 0) (cs : List Call)
    → total_work cs ≡ 0
    → ((id : ℤ) → Some (Looked id) cs → P id)
    → All (λ c. P c.product.pid) cs
All-looked P [] e h = tt
All-looked P (c ∷ cs) e h = (
  h c.product.pid (inl (refl, (idle_call c (omega (arith, e))).0)),
  All-looked P cs (omega (arith, e)) (λ id looked. h id (inr looked)),
)

map-replace :
    (before after : List Call) (c c' : Call)
    → c'.product ≡ c.product
    → map (λ x. x.product) (before ++ c' ∷ after) ≡ map (λ x. x.product) (before ++ c ∷ after)
map-replace [] after c c' e = ap (λ p. p ∷ map (λ x. x.product) after) e
map-replace (x ∷ before) after c c' e = ap (λ ps. x.product ∷ ps) (map-replace before after c c' e)

check_lock-product : (ids : List ℤ) (c : Call) → (check_lock ids c).1.product ≡ c.product
unfolding check_lock
check_lock-product ids c = elim (Bool-cases (contains c.product.pid ids)) [
  | inl there ↦ rw (there, check_lock) refl
  | inr absent ↦ rw (absent, check_lock) refl
]

Move-product :
    {ids : List ℤ} {c : Call} {ids' : List ℤ} {c' : Call}
    → Move ids c ids' c'
    → c'.product ≡ c.product
unfolding send_product give_back
Move-product {ids = ids} {c = c} (check e) = check_lock-product ids c
Move-product (deliver e) = refl
Move-product (release e) = refl
Move-product (reply status e e') = refl
Move-product (notice e e') = refl

Step-products :
    {s t : Minters} → Step s t → map (λ c. c.product) t.calls ≡ map (λ c. c.product) s.calls
Step-products (pick {c = c} {c' = c'} before after move) =
    map-replace before after c c' (Move-product move)

all_start : (products : List Product) → All CallInv (map start_minting products)
all_start [] = tt
all_start (p ∷ ps) = (start-CallInv p, all_start ps)

none-Looked : (id : ℤ) (products : List Product) → Some (Looked id) (map start_minting products) → ⊥
unfolding start_minting
none-Looked id [] h = h
none-Looked id (p ∷ ps) (inl h) = ground (arith, h.1)
none-Looked id (p ∷ ps) (inr h) = none-Looked id ps h

start_products :
    (products : List Product) → map (λ c. c.product) (map start_minting products) ≡ products
unfolding start_minting
start_products [] = refl
start_products (p ∷ ps) = ap (λ qs. p ∷ qs) (start_products ps)

module _ (products : List Product) where
  abbrev first : Minters
  first = record { lock_ids = []; calls = map start_minting products }

  Run-LockInv : {n : ℕ} {t : Minters} → Run first n t → LockInv t
  unfolding contains
  Run-LockInv start = record {
    calls = all_start products;
    held = λ id on. cc;
    looked = λ id h. absurd (none-Looked id products h);
  }
  Run-LockInv (later r step) = Step-LockInv step (Run-LockInv r)

  Run-products : {n : ℕ} {t : Minters} → Run first n t → map (λ c. c.product) t.calls ≡ products
  Run-products start = start_products products
  Run-products (later r step) = Step-products step ∙ Run-products r

  -- Calls for any products, at once and with no id locked, come to their end in every interleaving:
  -- as long as their tasks and answers have not taken four steps for each call together, one of them
  -- can go on, and then all is over. Each call has then sent its product once, as minted, told its
  -- verdict on the lock and that the minting is finished, and answered with the first of the two or
  -- that it is finished. For the id of each call some call has locked it. And an id that is still
  -- on the list of locked ids is one that some call locked after its own minting was finished.
  pub minting_terminates :
      (n : ℕ) (t : Minters)
      → Run first n t
      → ((n < 4 * length products) × ((u : Minters) × Step t u))
        ⊎ ((n ≡ 4 * length products) × MintingOutcome products t)
  minting_terminates n t r = elim (Run-goes_on products [] r) [
    | inl more ↦ inl more
    | inr (all_taken, idle) ↦
        let inv = Run-LockInv r in
        inr (
          all_taken,
          record {
            asked = Run-products r;
            ended = all-Ended t.calls idle inv.calls;
            locked_once = All-looked (λ id. Some (Locker id) t.calls) t.calls idle inv.looked;
            left =
                All-contains (λ id. Some (LockedLate id) t.calls) t.lock_ids
                  (λ id on. some-LockedLate id t.calls idle (inv.held id on));
          },
        )
  ]
