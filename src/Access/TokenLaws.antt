-- ===== src/Access/TokenLaws.antt =====
-- What src/apis/v1/http/auth.rs hands out, against what src/interfaces/passport.rs accepts.
use hoopoe.Base.{
  ℕ, Text, codes, Bool, true, Option, none, some, if◌then◌else◌, text_eq, text_eq-true,
  text_eq_refl, ℤ, pos, negsuc, parse_i64, as_u64, show_i64, done, panic, ◌≡◌, ◌≢◌, ◌⊎◌, arith, inl,
  inr, ◌<◌, ◌^◌, text_eq-append_left, [],
}
use hoopoe.Models.{Response, SecureCellConfig}
use hoopoe.Service.{Services}
use hoopoe.Service.RedisLaws.{set_ex-some}
use hoopoe.Service.Http.{HttpApi}
use hoopoe.Access.Passport.{ok, or_default, access_token_key, check_secret, verify_token_time}
use hoopoe.Access.Token.{GenTokenQueries, succeeded, store_token, generate_access_token}
use hoopoe.Access.PassportLaws.{verify_ok}

pub text_eq-token_key :
    (a b : Text) → text_eq (access_token_key a) (access_token_key b) ≡ text_eq a b
unfolding access_token_key
text_eq-token_key a b = text_eq-append_left (codes "access_token_for_") a b

-- `as u64` leaves a small positive number as it is.
as_u64-pos : (n : ℕ) → n < 2 ^ 31 → as_u64 (pos n) ≡ n
unfolding as_u64
as_u64-pos n small = ground (arith, small)

module _ (V : Services) (scope token : Text) (n : ℕ) (s t : V.Store)
    (e : V.set_ex s (access_token_key scope) token n ≡ some t) where
  stored-verify :
      parse_i64 token ≡ none
      → (later : ℕ) → verify_token_time V (some token) scope true t (pos later) ≡ done (ok token)
  stored-verify unread later = verify_ok V scope t (pos later) token (
    ground (
      arith,
      V.get-set_ex s t (access_token_key scope) token n (access_token_key scope) e,
      text_eq_refl (access_token_key scope),
    ),
    ground (arith, unread),
  )

  stored-get_other :
      (other : Text)
      → V.get t (access_token_key other)
        ≡ (if text_eq scope other then some token else V.get s (access_token_key other))
  stored-get_other other =
      rw (text_eq-token_key scope other) at
        (V.get-set_ex s t (access_token_key scope) token n (access_token_key other) e)

module _ (V : Services) (H : HttpApi) (secret scope : Text) (now token_time : ℤ) (s : V.Store) where
  abbrev cell : SecureCellConfig
  cell = record { secret_key = secret; passphrase = secret; payload = show_i64 token_time }

  -- A request with the secret, for an expiry that Redis takes, gets a token that passes the check
  -- for its scope at any time, as long as the token itself reads as no number; and its
  -- entry expires after that time. The stored tokens of all other scopes stay.
  pub generate-verify :
      (n : ℕ) (sealed : Text)
      → 0 < n
      → n < 2 ^ 31
      → H.to_str secret ≡ some secret
      → H.add_seconds now (pos n) ≡ some token_time
      → V.secure_cell_encrypt cell ≡ some sealed
      → parse_i64 (H.to_base58 sealed) ≡ none
      → (later : ℕ) (other : Text)
      → (t : V.Store) × (generate_access_token V H secret
            (some secret)
            (record { exp = some (pos n); scope = some scope })
            true
            now
            s
          ≡ done (t, succeeded (H.to_base58 sealed)))
        × (verify_token_time V (some (H.to_base58 sealed)) scope true t (pos later)
            ≡ done (ok (H.to_base58 sealed)))
        × (V.ttl t (access_token_key scope) ≡ some n)
        × (V.get t (access_token_key other) ≡ (
            if text_eq scope other
            then some (H.to_base58 sealed)
            else V.get s (access_token_key other)))
  unfolding generate_access_token check_secret store_token
  generate-verify n sealed p small str time sealing unread later other =
      let (t, e) = set_ex-some V s (access_token_key scope) (H.to_base58 sealed) n p small in
      (
        t,
        ground (arith, text_eq_refl secret, str, time, sealing, as_u64-pos n small, e),
        stored-verify V scope (H.to_base58 sealed) n s t e unread later,
        ground (
          arith,
          V.ttl-set_ex s t (access_token_key scope) (H.to_base58 sealed) n (access_token_key scope)
              e,
          text_eq_refl (access_token_key scope),
        ),
        stored-get_other V scope (H.to_base58 sealed) n s t e other,
      )

  -- A request with the secret that names no expiry, as the optional parameter allows, or a negative
  -- one panics once the token is sealed: Redis refuses the expiry that the number turns into.
  pub unusable_expiry_panics :
      (params : GenTokenQueries) (sealed : Text)
      → (params.exp ≡ none) ⊎ ((k : ℕ) × (params.exp ≡ some (negsuc k)) × (k < 2 ^ 63))
      → H.to_str secret ≡ some secret
      → H.add_seconds now (or_default (pos 0) params.exp) ≡ some token_time
      → V.secure_cell_encrypt cell ≡ some sealed
      → generate_access_token V H secret (some secret) params true now s ≡ panic
  unfolding generate_access_token check_secret store_token as_u64
  unusable_expiry_panics params sealed (inl e) str time sealing = ground (
    arith,
    text_eq_refl secret,
    str,
    time,
    sealing,
    e,
    V.set_ex_refuses_zero s (access_token_key (or_default [] params.scope)) (H.to_base58 sealed),
  )
  unusable_expiry_panics params sealed (inr (k, e, small)) str time sealing = ground (
    arith,
    text_eq_refl secret,
    str,
    time,
    sealing,
    e,
    V.set_ex_refuses_large s (access_token_key (or_default [] params.scope)) (H.to_base58 sealed)
        (as_u64 (negsuc k)),
  )

-- A request without the configured secret changes nothing that is stored.
pub generate_needs_secret :
    (V : Services) (H : HttpApi) (secret : Text) (header : Option Text) (params : GenTokenQueries)
    (pool_ok : Bool) (now : ℤ) (s t : V.Store) (r : Response)
    → header ≢ some secret
    → generate_access_token V H secret header params pool_ok now s ≡ done (t, r)
    → t ≡ s
unfolding generate_access_token check_secret
generate_needs_secret V H secret none params pool_ok now s t r ne e = ground arith
generate_needs_secret V H secret (some h) params pool_ok now s t r ne e =
    ground (arith, text_eq-true h secret)
