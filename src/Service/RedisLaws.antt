-- ===== src/Service/RedisLaws.antt =====
-- What follows from the laws of Redis' commands.
use hoopoe.Base.{ℕ, Text, some, ◌≡◌, ◌<◌, ◌^◌, Option-cases, inl, inr, arith}
use hoopoe.Service.{Services}

module _ (V : Services) (s : V.Store) (k v : Text) where
  -- An expiry between 1 and 2^31 - 1 is taken.
  pub set_ex-some : (n : ℕ) → 0 < n → n < 2 ^ 31 → (t : V.Store) × (V.set_ex s k v n ≡ some t)
  set_ex-some n p small = elim (Option-cases (V.set_ex s k v n)) [
    | inl missing ↦ ground (arith, missing, V.set_ex_accepts s k v n p small)
    | inr found ↦ found
  ]
