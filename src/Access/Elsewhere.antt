-- ===== src/Access/Elsewhere.antt =====
-- What the broker, the accessor and the handler of hoops write to Redis leaves the tokens of
-- src/apis/v1/http/auth.rs alone: their keys differ.

use hoopoe.Base.{
  ℕ, Text, codes, List, [], false, Option, done, ◌≡◌, refl, arith, inl, inr, Option-cases,
  Bool-cases, text_eq, as_u64, unwrap, parse_i64, >>=-eq-done,
}
use hoopoe.Models.{Response, NotifData, SecureCellConfig}
use hoopoe.Service.{Services}
use hoopoe.Access.Passport.{access_token_key}
use hoopoe.Api.Accessor.{owner_answer_key}
use hoopoe.Broker.{World, Kind, rmq, kafka, redis, config_key, notif_owner_key}
use hoopoe.Broker.Cache.{write_events}
use hoopoe.Broker.Publish.{leave_config}
use hoopoe.Hoop.Add.{FormApi, HoopEventForm, hoop_key, seconds_between, ensure, add_hoop}

module _ (V : Services) (scope : Text) where
  pub owner_answer_differs :
      (owner : Text) → text_eq (owner_answer_key owner) (access_token_key scope) ≡ false
  unfolding owner_answer_key access_token_key text_eq
  owner_answer_differs owner = refl

  pub all_answer_differs : text_eq (codes "all_notif_api_resp") (access_token_key scope) ≡ false
  unfolding access_token_key text_eq
  all_answer_differs = refl

  hoop_differs :
      (title started_at : Text)
      → text_eq (hoop_key title started_at) (access_token_key scope) ≡ false
  unfolding hoop_key access_token_key text_eq
  hoop_differs title started_at = refl

  events_differ : (owner : Text) → text_eq (notif_owner_key owner) (access_token_key scope) ≡ false
  unfolding notif_owner_key access_token_key text_eq
  events_differ owner = refl

  config_differs :
      (kind : Kind) (unique_key : Text)
      → text_eq (config_key kind unique_key) (access_token_key scope) ≡ false
  unfolding config_key access_token_key text_eq
  config_differs rmq unique_key = refl
  config_differs kafka unique_key = refl
  config_differs redis unique_key = refl

  pub write_events-token :
      (s : V.Store) (event : NotifData) (events : List NotifData) (seconds : ℕ)
      → V.get (write_events V s event events seconds) (access_token_key scope)
        ≡ V.get s (access_token_key scope)
  unfolding write_events
  write_events-token s event events seconds =
      let key = notif_owner_key event.receiver_info in
      let text = V.encode_events events in
      elim (Bool-cases (V.exists s key)) [
        | inl there ↦ ground (
          arith,
          V.get-set s key text (access_token_key scope),
          events_differ event.receiver_info,
          there,
        )
        | inr absent ↦ elim (Option-cases (V.set_ex s key text seconds)) [
          | inl refused ↦ ground (arith, absent, refused)
          | inr (t, taken) ↦ ground (
            arith,
            absent,
            taken,
            events_differ event.receiver_info,
            V.get-set_ex s t key text seconds (access_token_key scope) taken,
          )
        ]
      ]

  pub leave_config-token :
      (kind : Kind) (config : SecureCellConfig) (unique_key : Text) (w : World V.Store)
      → V.get (leave_config V kind config unique_key w).store (access_token_key scope)
        ≡ V.get w.store (access_token_key scope)
  unfolding leave_config
  leave_config-token kind config unique_key w = ground (
    arith,
    V.get-set w.store (config_key kind unique_key) (V.encode_config config)
        (access_token_key scope),
    config_differs kind unique_key,
  )

  pub add_hoop-token :
      (F : FormApi) (form : HoopEventForm) (today : ℕ) (s t : V.Store) (r : Option Response)
      → add_hoop V F form today s ≡ done (t, r)
      → V.get t (access_token_key scope) ≡ V.get s (access_token_key scope)
  unfolding add_hoop
  add_hoop-token F form today s t r e =
      let (_, _, e1) = >>=-eq-done (ensure form.has_cover) _ e in
      let (_, _, e2) = >>=-eq-done (ensure (F.reads_invitations form.invitations)) _ e1 in
      let (end_time, _, e3) = >>=-eq-done (unwrap (parse_i64 form.end_at)) _ e2 in
      let (start_time, _, e4) = >>=-eq-done (unwrap (parse_i64 form.started_at)) _ e3 in
      let (end_day, _, e5) = >>=-eq-done (unwrap (F.day_of end_time)) _ e4 in
      let key = hoop_key form.title form.started_at in
      let seconds = as_u64 (seconds_between today end_day) in
      elim (Option-cases (V.set_ex s key [] seconds)) [
        | inl refused ↦ ground (arith, refused, e5)
        | inr (u, taken) ↦ ground (
          arith,
          e5,
          taken,
          V.get-set_ex s u key [] seconds (access_token_key scope) taken,
          hoop_differs form.title form.started_at,
        )
      ]
