-- ===== src/Broker/CacheLaws.antt =====
-- The cache step as a map from receivers to the lists of their notifications, and its expiry.

use mathlib.Core.Option
use hoopoe.Base.{
  ℕ, Text, codes, List, [], ◌∷◌, ◌++◌, true, false, Option, none, some, if◌then◌else◌, text_eq,
  text_eq_refl, text_eq-append_left, ◌≡◌, ◌<◌, ◌^◌, arith, inl, inr, Option-cases, Bool-cases,
}
use hoopoe.Models.{NotifData}
use hoopoe.Service.{Services}
use hoopoe.Service.RedisLaws.{set_ex-some}
use hoopoe.Broker.{notif_owner_key}
use hoopoe.Broker.Cache.{read_events, write_events}

pub text_eq-owner_key : (a b : Text) → text_eq (notif_owner_key a) (notif_owner_key b) ≡ text_eq a b
unfolding notif_owner_key
text_eq-owner_key a b = text_eq-append_left (codes "notif_owner:") a b

module _ (V : Services) where
  -- The list that stands for a receiver; no value counts as the empty list.
  unfoldable pub events_of : V.Store → Text → Option (List NotifData)
  events_of s owner = elim (V.get s (notif_owner_key owner)) [
    | none ↦ some []
    | some raw ↦ V.decode_events raw
  ]

  pub read_events_lem :
      (s : V.Store) (event : NotifData)
      → read_events V s event
        ≡ Option.map (λ ms. ms ++ event ∷ []) (events_of s event.receiver_info)
  unfolding read_events events_of
  read_events_lem s event = elim (Option-cases (V.get s (notif_owner_key event.receiver_info))) [
    | inl e ↦ ground (arith, e)
    | inr (raw, e) ↦ ground (arith, e)
  ]

  module _ (s : V.Store) (event : NotifData) (events : List NotifData) (exp : ℕ) where
    abbrev key : Text
    key = notif_owner_key event.receiver_info

    abbrev text : Text
    text = V.encode_events events

    write_events-fresh :
        (t : V.Store)
        → V.exists s key ≡ false
        → V.set_ex s key text exp ≡ some t
        → write_events V s event events exp ≡ t
    unfolding write_events
    write_events-fresh t absent e = rw (absent, e)

    write_events-present :
        V.exists s key ≡ true → write_events V s event events exp ≡ V.set s key text
    unfolding write_events
    write_events-present there = rw there

    -- What a write leaves at every key.
    pub get-write_events :
        0 < exp
        → exp < 2 ^ 31
        → (k : Text)
        → V.get (write_events V s event events exp) k
          ≡ (if text_eq key k then some text else V.get s k)
    get-write_events pos small k = elim (Bool-cases (V.exists s key)) [
      | inl there ↦ rw (write_events-present there) (V.get-set s key text k)
      | inr absent ↦
          let (t, e) = set_ex-some V s key text exp pos small in
          rw (write_events-fresh t absent e) (V.get-set_ex s t key text exp k e)
    ]

    -- The expiry of the key itself: set for a new key, taken away from one that was there.
    pub ttl-write_events :
        0 < exp
        → exp < 2 ^ 31
        → V.ttl (write_events V s event events exp) key
          ≡ (if V.exists s key then none else some exp)
    ttl-write_events pos small = elim (Bool-cases (V.exists s key)) [
      | inl there ↦
          rw (write_events-present there, there, V.ttl-set s key text key, text_eq_refl key)
      | inr absent ↦
          let (t, e) = set_ex-some V s key text exp pos small in
          rw (
            write_events-fresh t absent e,
            absent,
            V.ttl-set_ex s t key text exp key e,
            text_eq_refl key,
          )
    ]

    -- What a write leaves of the lists.
    pub events_of-write_events :
        0 < exp
        → exp < 2 ^ 31
        → (owner : Text)
        → events_of (write_events V s event events exp) owner
          ≡ (if text_eq event.receiver_info owner then some events else events_of s owner)
    unfolding events_of
    events_of-write_events pos small owner = ground (
      arith,
      get-write_events pos small (notif_owner_key owner),
      text_eq-owner_key event.receiver_info owner,
      V.decode-encode_events events,
    )
