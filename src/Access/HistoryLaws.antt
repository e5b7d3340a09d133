-- ===== src/Access/HistoryLaws.antt =====
-- Whence a token that src/middlewares/passport.rs lets through has come.
use mathlib.Core.Path.{subst}
use hoopoe.Base.{
  ℕ, ℤ, Text, codes, List, [], ◌∷◌, Bool, true, false, Option, none, some, Outcome, done, panic,
  ◌≡◌, refl, ◌∙◌, ◌⊎◌, arith, inl, inr, Option-cases, Bool-cases, text_eq, text_eq-true, as_u64,
  pos, sym, ap, show_i64,
}
use hoopoe.Models.{Response}
use hoopoe.Service.{Services}
use hoopoe.Service.Http.{HttpApi}
use hoopoe.Access.Passport.{ok, or_default, access_token_key, check_secret, verify_token_time}
use hoopoe.Access.PassportLaws.{check_passport_passage, verify_token_time_iff}
use hoopoe.Access.Token.{GenTokenQueries, succeeded, store_token, generate_access_token}
use hoopoe.Access.TokenLaws.{text_eq-token_key}
use hoopoe.Api.Accessor.{AnswerApi}
use hoopoe.Broker.Cache.{write_events}
use hoopoe.Broker.Publish.{leave_config}
use hoopoe.Hoop.Add.{FormApi}
use hoopoe.Api.Untouched.{Kept, get_notif-Kept}
use hoopoe.Access.Guard.{Passage, check_passport}
use hoopoe.Access.Elsewhere.{
  owner_answer_differs, all_answer_differs, write_events-token, leave_config-token, add_hoop-token,
}
use hoopoe.Access.History.{
  Asked, History, Step, token_asked, notifs_asked, hoop_added, events_cached, config_left,
  keys_expired, Reach, start, after,
}

module _ (V : Services) (H : HttpApi) (secret : Text) where
  -- Either nothing is stored, or the request had the secret, and the answer has the token that is
  -- stored for the scope that was asked for. A panic stores nothing.
  abbrev Stored : Option Text → GenTokenQueries → V.Store → Outcome (V.Store × Response) → Type 0
  Stored header params s panic = Unit
  Stored header params s (done (t, r)) =
      (t ≡ s)
      ⊎ ((header ≡ some secret)
          × ((token : Text) × (n : ℕ) × (V.set_ex s (access_token_key (or_default [] params.scope))
                  token n
                ≡ some t)
              × (r ≡ succeeded token)))

  store_token-Stored :
      (params : GenTokenQueries) (key : Text) (now : ℤ) (s : V.Store)
      → Stored (some secret) params s (store_token V H params key now s)
  unfolding store_token
  store_token-Stored params key now s =
      elim (Option-cases (H.add_seconds now (or_default (pos 0) params.exp))) [
        | inl e ↦ rw (e, store_token) tt
        | inr (token_time, e) ↦
            elim (Option-cases (
              V.secure_cell_encrypt
                (record { secret_key = key; passphrase = key; payload = show_i64 token_time }))) [
                  | inl e' ↦ rw (e, e', store_token) (inl refl)
                  | inr (sealed, e') ↦
                      elim (Option-cases (
                        V.set_ex s (access_token_key (or_default [] params.scope))
                          (H.to_base58 sealed) (as_u64 (or_default (pos 0) params.exp)))) [
                            | inl refused ↦ rw (e, e', refused, store_token) tt
                            | inr (t, taken) ↦
                                rw (e, e', taken, store_token)
                                  (inr (
                                    refl,
                                    (
                                      H.to_base58 sealed,
                                      as_u64 (or_default (pos 0) params.exp),
                                      taken,
                                      refl,
                                    ),
                                  ))
                          ]
                ]
      ]

  generate-Stored :
      (header : Option Text) (params : GenTokenQueries) (pool_ok : Bool) (now : ℤ) (s : V.Store)
      → Stored header params s (generate_access_token V H secret header params pool_ok now s)
  unfolding generate_access_token check_secret
  generate-Stored header params false now s = inl refl
  generate-Stored none params true now s = inl refl
  generate-Stored (some given) params true now s = elim (Bool-cases (text_eq given secret)) [
    | inr wrong ↦ rw wrong (inl refl)
    | inl same ↦
        rw (same, text_eq-true given secret same)
          (store_token-Stored params (or_default [] (H.to_str secret)) now s)
  ]

  -- A request that had the secret and asked for the scope was answered with the token.
  abbrev pub HandedOut : List Asked → Text → Text → Type 0
  HandedOut [] scope token = ⊥
  HandedOut (a ∷ asked) scope token =
      ((a.header ≡ some secret)
        × (or_default [] a.params.scope ≡ scope)
        × (a.response ≡ succeeded token))
      ⊎ HandedOut asked scope token

  -- What is stored for a scope was handed out for it.
  abbrev Inv : History V.Store → Type 0
  Inv h =
      (scope token : Text)
      → V.get h.store (access_token_key scope) ≡ some token
      → HandedOut h.asked scope token

  token_asked-Inv :
      (h : History V.Store) (header : Option Text) (params : GenTokenQueries) (t : V.Store)
      (r : Response)
      → Inv h
      → Stored header params h.store (done (t, r))
      → Inv (record {
        store = t;
        asked = record { header = header; params = params; response = r } ∷ h.asked;
      })
  token_asked-Inv h header params t r i (inl same) scope token found =
      inr (i scope token (rw same at found))
  token_asked-Inv h header params t r i (inr (known, (given, n, taken, answer))) scope token found =
      let after =
        V.get-set_ex h.store t (access_token_key (or_default [] params.scope)) given n
          (access_token_key scope) taken in
      elim (Bool-cases (text_eq (or_default [] params.scope) scope)) [
        | inl this ↦ inl (
          known,
          text_eq-true (or_default [] params.scope) scope this,
          ground (
            arith,
            text_eq-token_key (or_default [] params.scope) scope,
            this,
            after,
            found,
            answer,
          ),
        )
        | inr another ↦ inr (
            i scope token (
              ground (
                arith,
                text_eq-token_key (or_default [] params.scope) scope,
                another,
                after,
                found,
              )))
      ]

module _ (V : Services) (H : HttpApi) (secret : Text) {Row : Type 0} (W : AnswerApi Row)
    (exp : Option ℕ) (F : FormApi) where
  kept-Inv :
      (h : History V.Store) (t : V.Store)
      → ((scope : Text) → V.get t (access_token_key scope) ≡ V.get h.store (access_token_key scope))
      → Inv V H secret h
      → Inv V H secret (record h { store = t })
  kept-Inv h t same i scope token found = i scope token (sym (same scope) ∙ found)

  Step-Inv :
      {h k : History V.Store} → Step V H secret W exp F h k → Inv V H secret h → Inv V H secret k
  Step-Inv {h = h} (token_asked header params pool_ok now t r e) i =
      token_asked-Inv V H secret h header params t r i (
        subst (Stored V H secret header params h.store) e
          (generate-Stored V H secret header params pool_ok now h.store))
  Step-Inv {h = h} (notifs_asked D env query t r e) i =
      kept-Inv h t
        (λ scope. subst (Kept V W exp (access_token_key scope) h.store) e (
          get_notif-Kept V W exp (access_token_key scope) (owner_answer_differs V scope)
            (all_answer_differs V scope) D env query h.store))
        i
  Step-Inv {h = h} (hoop_added form today t r e) i =
      kept-Inv h t (λ scope. add_hoop-token V scope F form today h.store t r e) i
  Step-Inv {h = h} (events_cached event events seconds) i =
      kept-Inv h (write_events V h.store event events seconds)
        (λ scope. write_events-token V scope h.store event events seconds) i
  Step-Inv {h = h} (config_left kind config unique_key w e) i =
      kept-Inv h (leave_config V kind config unique_key w).store
        (λ scope.
          leave_config-token V scope kind config unique_key w
          ∙ ap (λ s. V.get s (access_token_key scope)) e)
        i
  Step-Inv {h = h} (keys_expired t gone) i = λ scope token found.
      elim (gone (access_token_key scope)) [
        | inl absent ↦ ground (arith, absent, found)
        | inr same ↦ i scope token (sym same ∙ found)
      ]

  Reach-Inv :
      {h k : History V.Store} → Inv V H secret h → Reach V H secret W exp F h k → Inv V H secret k
  Reach-Inv i start = i
  Reach-Inv i (after r s) = Step-Inv s (Reach-Inv i r)

  verified_token :
      (header : Option Text) (scope : Text) (pool_ok : Bool) (s : V.Store) (now : ℤ) (token : Text)
      → verify_token_time V header scope pool_ok s now ≡ done (ok token)
      → (header ≡ some token) × (V.get s (access_token_key scope) ≡ some token)
  unfolding verify_token_time
  verified_token none scope pool_ok s now token e = cc
  verified_token (some given) scope false s now token e = cc
  verified_token (some given) scope true s now token e =
      let (same, current) = (verify_token_time_iff V scope s now given token).0 e in
      (ap some same, current.0)

  -- Whatever the server does, from a Redis without tokens on: a request that the middleware for the
  -- passport lets through carries a token that was the answer to a request which had the secret and
  -- asked for the scope "write".
  pub passed_token-HandedOut :
      {s : V.Store} {h : History V.Store}
      → ((scope : Text) → V.get s (access_token_key scope) ≡ none)
      → Reach V H secret W exp F (record { store = s; asked = [] }) h
      → (header : Option Text) (pool_ok : Bool) (now : ℤ) (p : Passage)
      → check_passport V header pool_ok h.store now ≡ done p
      → p.skipped ≡ false
      → (token : Text) × (header ≡ some token) × HandedOut V H secret h.asked (codes "write") token
  passed_token-HandedOut {h = h} none_yet r header pool_ok now p e passed =
      elim (check_passport_passage V header pool_ok h.store now p e) [
        | inl (token, verified, _) ↦
            let (given, stored) =
              verified_token header (codes "write") pool_ok h.store now token verified in
            (
              token,
              given,
              Reach-Inv (λ scope token' found. absurd (ground (arith, none_yet scope, found))) r
                  (codes "write") token stored,
            )
        | inr stopped ↦ ground (arith, stopped.2, passed)
      ]
