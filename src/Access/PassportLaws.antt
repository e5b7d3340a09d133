-- ===== src/Access/PassportLaws.antt =====
-- When the checks of src/interfaces/passport.rs and the middlewares let a request through.
use hoopoe.Base.{
  ℕ, Text, codes, ◌++◌, Bool, true, false, Option, none, some, if◌then◌else◌, text_eq-true,
  text_eq_refl, ℤ, pos, ltb_ℤ, parse_i64, Outcome, done, panic, ◌>>=◌, ◌⊎◌, is_some, ◌≡◌, refl, ◌↔◌,
  arith, inl, inr, Option-cases, ltb,
}
use hoopoe.Models.{reject, forbidden_status, expired_token_time}
use hoopoe.Service.{Services}
use hoopoe.Service.Http.{HttpApi}
use hoopoe.Access.Passport.{
  Checked, ok, err, or_default, access_token_key, check_secret, check_time, verify_token_time,
}
use hoopoe.Access.Guard.{
  Passage, Checkpoint, CheckTokenApi, pass, check_passport, get_user, check_token,
}
use hoopoe.Access.User.{CheckTokenResponse}
use hoopoe.Requests.{HttpRequest, get, builder, fetch_get}

-- Whether a result lets the request through.
abbrev pub is_ok : Checked → Bool
is_ok (ok t) = true
is_ok (err r) = false

-- `check_secret` lets a request through exactly if its header is the configured secret.
pub check_secret_iff :
    (H : HttpApi) (secret_key : Text) (header : Option Text)
    → (is_ok (check_secret H secret_key header) ≡ true) ↔ (header ≡ some secret_key)
unfolding check_secret
check_secret_iff H secret_key none = (λ h. cc, λ h. cc)
check_secret_iff H secret_key (some h) = (
  λ e. ground (arith, text_eq-true h secret_key),
  λ e. ground (arith, text_eq_refl secret_key, e),
)

module _ (V : Services) (scope : Text) (s : V.Store) (now : ℤ) where
  -- The token that is stored for the scope and does not read as a time after `now`.
  abbrev pub IsCurrent : Text → Type 0
  IsCurrent t =
      (V.get s (access_token_key scope) ≡ some t)
      × (ltb_ℤ now (or_default (pos 0) (parse_i64 t)) ≡ false)

  pub verify_ok :
      (t : Text) → IsCurrent t → verify_token_time V (some t) scope true s now ≡ done (ok t)
  unfolding verify_token_time check_time
  verify_ok t c = ground (arith, V.exists-get s (access_token_key scope), text_eq_refl t, c.0, c.1)

  verify_ok-IsCurrent :
      (header t : Text)
      → verify_token_time V (some header) scope true s now ≡ done (ok t)
      → (header ≡ t) × IsCurrent t
  unfolding verify_token_time check_time
  verify_ok-IsCurrent header t e = elim (Option-cases (V.get s (access_token_key scope))) [
    | inl missing ↦ ground (arith, V.exists-get s (access_token_key scope))
    | inr (stored, found) ↦
        ground (arith, V.exists-get s (access_token_key scope), text_eq-true header stored)
  ]

  -- With a connection to Redis, a token passes exactly if it is the one that is stored for the
  -- scope and does not read as a number of seconds after the clock's; what reads as no number
  -- counts as 0.
  pub verify_token_time_iff :
      (header t : Text)
      → (verify_token_time V (some header) scope true s now ≡ done (ok t))
        ↔ ((header ≡ t) × IsCurrent t)
  verify_token_time_iff header t =
      (verify_ok-IsCurrent header t, λ c. ground (arith, verify_ok t c.1, c.0))

  -- A stored token that is the number of a time to come, as a fresh expiry would be, is rejected as
  -- expired although the request carries it; once that time is past it is let through.
  pub future_token_rejected :
      (t : Text) (time : ℕ)
      → V.get s (access_token_key scope) ≡ some t
      → parse_i64 t ≡ some (pos time)
      → (later : ℕ) → now ≡ pos later
      → verify_token_time V (some t) scope true s now
        ≡ done (if ltb later time then err (reject forbidden_status expired_token_time) else ok t)
  unfolding verify_token_time check_time
  future_token_rejected t time found parsed later e =
      ground (arith, V.exists-get s (access_token_key scope), text_eq_refl t, e)

-- What `check_passport` leaves of a check's result.
abbrev pub Passed : Outcome Checked → Passage → Type 0
Passed o p =
    ((t : Text) × (o ≡ done (ok t))
      × (p ≡ record {
        passport_verified = some true;
        passport_token_time = some t;
        skipped = false;
        response = none;
      }))
    ⊎ ((p.passport_verified ≡ some false)
        × (p.passport_token_time ≡ none)
        × (p.skipped ≡ true)
        × (is_some p.response ≡ true))

pass-Passed : (o : Outcome Checked) (p : Passage) → (o >>= λ r. done (pass r)) ≡ done p → Passed o p
unfolding pass
pass-Passed panic p e = cc
pass-Passed (done (ok t)) p e = inl (t, refl, ground arith)
pass-Passed (done (err r)) p e = inr (ground arith)

-- Of a request that the middleware for the passport has not stopped, the passport is verified, and
-- the depot has the token for which the check for the scope "write" passed. One that it has stopped
-- has an error response, and no token.
pub check_passport_passage :
    (V : Services) (header : Option Text) (pool_ok : Bool) (s : V.Store) (now : ℤ) (p : Passage)
    → check_passport V header pool_ok s now ≡ done p
    → Passed (verify_token_time V header (codes "write") pool_ok s now) p
unfolding check_passport
check_passport_passage V header pool_ok s now p =
    pass-Passed (verify_token_time V header (codes "write") pool_ok s now) p

-- `check_token` calls the next handler only with a user in the depot, and then leaves the response
-- alone. It is the user in the JSON of the answer to a GET of the service's path that carries the
-- header's token.
pub check_token_calls_next :
    {Value Answer : Type 0} (H : HttpApi) (A : CheckTokenApi Value Answer) (base_url header : Text)
    (has_next : Bool) (c : Checkpoint Value)
    → check_token H A base_url (some header) has_next ≡ done c
    → c.called_next ≡ true
    → (jwt : Text) × (sent : Answer) × (json_data : Value) × (answer : CheckTokenResponse Value)
      × (H.to_str header ≡ some jwt)
      × (A.send (record {
        verb = get;
        url = base_url ++ codes "/health/check-token";
        authorization = jwt;
        body = none;
      })
          ≡ some sent)
      × (A.read_json sent ≡ some json_data)
      × (A.from_value json_data ≡ some answer)
      × (c.user_data ≡ some answer.user_data)
      × (c.response ≡ none)
unfolding check_token get_user fetch_get builder
check_token_calls_next {Value = Value} H A base_url header has_next c e called =
    let request : Text → HttpRequest Value = λ jwt. record {
      verb = get;
      url = base_url ++ codes "/health/check-token";
      authorization = jwt;
      body = none;
    } in
    elim (Option-cases (H.to_str header)) [
      | inl bad ↦ absurd (ground (arith, bad))
      | inr (jwt, good) ↦ elim (Option-cases (A.send (request jwt))) [
        | inl silent ↦ absurd (ground (arith, good, silent))
        | inr (sent, got) ↦ elim (Option-cases (A.read_json sent)) [
          | inl unread ↦ absurd (ground (arith, good, got, unread))
          | inr (json_data, read) ↦ elim (Option-cases (A.from_value json_data)) [
            | inl other ↦ absurd (ground (arith, good, got, read, other))
            | inr (answer, known) ↦ (
              jwt,
              sent,
              json_data,
              answer,
              good,
              got,
              read,
              known,
              ground (arith, good, got, read, known),
              ground (arith, good, got, read, known),
            )
          ]
        ]
      ]
    ]
