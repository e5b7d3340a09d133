-- ===== src/Broker/CacheMap.antt =====
-- The cache of src/workers/notif/mod.rs as a map: each receiver's list grows by its notifications.
use mathlib.Core.List.{append_assoc, append-nil}
use hoopoe.Base.{
  ℕ, Text, List, [], ◌∷◌, ◌++◌, true, none, some, if◌then◌else◌, text_eq, text_eq_refl, ◌≡◌, ◌<◌,
  ◌^◌, arith, inl, inr, Option-cases, Bool-cases, text_eq-true,
}
use hoopoe.Models.{NotifData}
use hoopoe.Service.{Services}
use hoopoe.Broker.{World, notif_owner_key}
use hoopoe.Broker.Cache.{read_events, write_events, cache_event}
use hoopoe.Broker.CacheLaws.{
  events_of, read_events_lem, events_of-write_events, ttl-write_events, get-write_events,
}

-- The notifications among these that are for the receiver.
abbrev pub own : Text → List NotifData → List NotifData
own owner [] = []
own owner (event ∷ rest) =
    let later = own owner rest in if text_eq event.receiver_info owner then event ∷ later else later

module _ (V : Services) where
  events_of-absent :
      (s : V.Store) (owner : Text)
      → V.get s (notif_owner_key owner) ≡ none
      → events_of V s owner ≡ some []
  unfolding events_of
  events_of-absent s owner e = rw (e, events_of)

  module _ (exp : ℕ) (pos : 0 < exp) (small : exp < 2 ^ 31) where
    cache_event-some :
        (event : NotifData) (w : World V.Store) (events : List NotifData)
        → read_events V w.store event ≡ some events
        → cache_event V exp true event w
          ≡ (record w { store = write_events V w.store event events exp }, true)
    unfolding cache_event
    cache_event-some event w events e = rw (e, cache_event) (ground arith)

    read_events-some :
        (event : NotifData) (w : World V.Store) (ms : List NotifData)
        → events_of V w.store event.receiver_info ≡ some ms
        → read_events V w.store event ≡ some (ms ++ event ∷ [])
    read_events-some event w ms known = ground (arith, read_events_lem V w.store event)

    cache_event-none :
        (event : NotifData) (w : World V.Store)
        → read_events V w.store event ≡ none
        → (cache_event V exp true event w).0.store ≡ w.store
    unfolding cache_event
    cache_event-none event w e = rw (e, cache_event) (ground arith)

    -- Caching a notification, with a connection and an expiry that Redis takes, puts it at the end
    -- of its receiver's list and leaves the list of any other receiver as it was.
    pub events_of-cache_event :
        (event : NotifData) (w : World V.Store) (owner : Text) (ms : List NotifData)
        → events_of V w.store owner ≡ some ms
        → events_of V (cache_event V exp true event w).0.store owner
          ≡ some (if text_eq event.receiver_info owner then ms ++ event ∷ [] else ms)
    events_of-cache_event event w owner ms known =
        elim (Option-cases (read_events V w.store event)) [
          | inl e ↦ rw (cache_event-none event w e) (
              ground
                (arith, read_events_lem V w.store event, text_eq-true event.receiver_info owner))
          | inr (events, e) ↦ rw (cache_event-some event w events e) (
              ground (
                arith,
                events_of-write_events V w.store event events exp pos small owner,
                read_events_lem V w.store event,
                text_eq-true event.receiver_info owner,
              ))
        ]

    -- Notifications cached one after the other.
    pub cache_all : List NotifData → World V.Store → World V.Store
    cache_all [] w = w
    cache_all (event ∷ rest) w = cache_all rest (cache_event V exp true event w).0

    -- After any sequence of cache steps a receiver's list is the old one followed by the
    -- notifications for that receiver, in their order; the expiry is between 1 and 2^31 - 1.
    pub events_of-cache_all :
        (events : List NotifData) (w : World V.Store) (owner : Text) (ms : List NotifData)
        → events_of V w.store owner ≡ some ms
        → events_of V (cache_all events w).store owner ≡ some (ms ++ own owner events)
    unfolding cache_all
    events_of-cache_all [] w owner ms known = rw append-nil known
    events_of-cache_all (event ∷ rest) w owner ms known =
        let step = events_of-cache_event event w owner ms known in
        elim (Bool-cases (text_eq event.receiver_info owner)) [
          | inl mine ↦ rw mine (
              rw append_assoc at (
                events_of-cache_all rest (cache_event V exp true event w).0 owner (ms ++ event ∷ [])
                  (rw mine at step)))
          | inr other ↦ rw other (
              events_of-cache_all rest (cache_event V exp true event w).0 owner ms
                (rw other at step))
        ]

    exists-cache_event :
        (event : NotifData) (w : World V.Store) (ms : List NotifData)
        → events_of V w.store event.receiver_info ≡ some ms
        → V.exists (cache_event V exp true event w).0.store (notif_owner_key event.receiver_info)
          ≡ true
    exists-cache_event event w ms known =
        let e = read_events-some event w ms known in
        rw (cache_event-some event w (ms ++ event ∷ []) e) (
          ground (
            arith,
            V.exists-get (write_events V w.store event (ms ++ event ∷ []) exp)
                (notif_owner_key event.receiver_info),
            get-write_events V w.store event (ms ++ event ∷ []) exp pos small
                (notif_owner_key event.receiver_info),
            text_eq_refl (notif_owner_key event.receiver_info),
          ))

    -- The expiry after one more notification for a receiver whose list can be read: it is put on a
    -- new key, and taken away from a key that is there.
    pub ttl-cache_event :
        (event : NotifData) (w : World V.Store) (ms : List NotifData)
        → events_of V w.store event.receiver_info ≡ some ms
        → V.ttl (cache_event V exp true event w).0.store (notif_owner_key event.receiver_info)
          ≡ (if V.exists w.store (notif_owner_key event.receiver_info) then none else some exp)
    ttl-cache_event event w ms known =
        rw (cache_event-some event w (ms ++ event ∷ []) (read_events-some event w ms known))
          (ttl-write_events V w.store event (ms ++ event ∷ []) exp pos small)

    -- A first notification gives the receiver's key the expiry that was asked for; the second one
    -- leaves the key with no expiry at all, so that the list is never dropped.
    pub second_event_drops_ttl :
        (first second : NotifData) (w : World V.Store)
        → second.receiver_info ≡ first.receiver_info
        → V.get w.store (notif_owner_key first.receiver_info) ≡ none
        → let key = notif_owner_key first.receiver_info in
          (V.ttl (cache_all (first ∷ []) w).store key ≡ some exp)
          × (V.ttl (cache_all (first ∷ second ∷ []) w).store key ≡ none)
    unfolding cache_all
    second_event_drops_ttl first second w same absent =
        let w1 = (cache_event V exp true first w).0 in
        let start = events_of-absent w.store first.receiver_info absent in
        let known = events_of-cache_event first w second.receiver_info [] (rw same start) in
        let there = exists-cache_event first w [] start in
        (
          ground (
            arith,
            ttl-cache_event first w [] start,
            V.exists-get w.store (notif_owner_key first.receiver_info),
          ),
          ground (
            arith,
            text_eq_refl first.receiver_info,
            ttl-cache_event second w1 (first ∷ []),
            known,
            there,
          ),
        )
