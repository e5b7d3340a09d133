-- ===== src/Service/Redis.antt =====
-- The Redis commands that the code sends, as functions on the state of the server. `SET` discards a
-- key's expiry, `SETEX` puts one and refuses 0 and what is no signed 64-bit number.
use hoopoe.Base.{
  ℕ, Text, Bool, Option, none, some, ◌≡◌, ◌≤◌, ◌<◌, ◌^◌, text_eq, if◌then◌else◌, is_some,
}

pub record RedisApi : Type 1 where
  pub Store : Type 0
  pub get : Store → Text → Option Text
  pub exists : Store → Text → Bool
  pub ttl : Store → Text → Option ℕ
  pub set : Store → Text → Text → Store
  pub set_ex : Store → Text → Text → ℕ → Option Store
  pub exists-get : (s : Store) (k : Text) → exists s k ≡ is_some (get s k)
  pub get-set :
      (s : Store) (k v j : Text) → get (set s k v) j ≡ (if text_eq k j then some v else get s j)
  pub ttl-set :
      (s : Store) (k v j : Text) → ttl (set s k v) j ≡ (if text_eq k j then none else ttl s j)
  pub set_ex_refuses_zero : (s : Store) (k v : Text) → set_ex s k v 0 ≡ none
  pub set_ex_refuses_large : (s : Store) (k v : Text) (n : ℕ) → 2 ^ 63 ≤ n → set_ex s k v n ≡ none
  pub set_ex_accepts :
      (s : Store) (k v : Text) (n : ℕ) → 0 < n → n < 2 ^ 31 → is_some (set_ex s k v n) ≡ Bool.true
  pub get-set_ex :
      (s t : Store) (k v : Text) (n : ℕ) (j : Text)
      → set_ex s k v n ≡ some t
      → get t j ≡ (if text_eq k j then some v else get s j)
  pub ttl-set_ex :
      (s t : Store) (k v : Text) (n : ℕ) (j : Text)
      → set_ex s k v n ≡ some t
      → ttl t j ≡ (if text_eq k j then some n else ttl s j)
