-- ===== src/Examples/Wire.antt =====
-- A serialisation with length prefixes.
use hoopoe.Base.{
  ℕ, zero, suc, Text, List, [], ◌∷◌, ◌++◌, Bool, true, false, Option, none, some, ◌≡◌, refl, length,
  ℤ, pos, negsuc, if◌then◌else◌, ◌==◌,
}
use hoopoe.Models.{ActionType, NotifData, SecureCellConfig}
use ActionType.{product_purchased, zerlog, event_created, event_expired, event_locked}

abbrev Parsed : Type 0 → Type 0
Parsed A = Option (A × Text)

module _ {A B : Type 0} where
  abbrev then_read : Parsed A → (A → Text → Parsed B) → Parsed B
  then_read none f = none
  then_read (some (a, rest)) f = f a rest

unfoldable pub take_text : ℕ → Text → Parsed Text
take_text zero s = some ([], s)
take_text (suc n) [] = none
take_text (suc n) (b ∷ s) = then_read (take_text n s) (λ t rest. some (b ∷ t, rest))

abbrev put_text : Text → Text → Text
put_text t rest = length t ∷ t ++ rest

abbrev get_text : Text → Parsed Text
get_text [] = none
get_text (n ∷ s) = take_text n s

take_text-append : (t rest : Text) → take_text (length t) (t ++ rest) ≡ some (t, rest)
unfolding take_text
take_text-append [] rest = refl
take_text-append (b ∷ t) rest = rw (take_text-append t rest) refl

abbrev put_type : ActionType → ℕ
put_type product_purchased = 0
put_type zerlog = 1
put_type event_created = 2
put_type event_expired = 3
put_type event_locked = 4

abbrev get_type : ℕ → ActionType
get_type n =
    if n == 0
    then product_purchased
    else if n == 1
    then zerlog
    else if n == 2
    then event_created
    else if n == 3
    then event_expired
    else event_locked

get_type-put : (t : ActionType) → get_type (put_type t) ≡ t
get_type-put product_purchased = refl
get_type-put zerlog = refl
get_type-put event_created = refl
get_type-put event_expired = refl
get_type-put event_locked = refl

abbrev put_bool : Bool → ℕ
put_bool false = 0
put_bool true = 1

abbrev get_bool : ℕ → Bool
get_bool n = n == 1

get_bool-put : (b : Bool) → get_bool (put_bool b) ≡ b
get_bool-put true = refl
get_bool-put false = refl

abbrev put_int : ℤ → Text → Text
put_int (pos n) rest = 0 ∷ n ∷ rest
put_int (negsuc n) rest = 1 ∷ n ∷ rest

abbrev get_int : Text → Parsed ℤ
get_int (sign ∷ n ∷ rest) = some (if sign == 0 then pos n else negsuc n, rest)
get_int _ = none

get_int-put : (z : ℤ) (rest : Text) → get_int (put_int z rest) ≡ some (z, rest)
get_int-put (pos n) rest = refl
get_int-put (negsuc n) rest = refl

unfoldable pub put_notif : NotifData → Text → Text
put_notif d rest =
    put_type d.action_type
    ∷ put_bool d.is_seen
    ∷ put_int d.fired_at (
        put_text d.id
          (put_text d.receiver_info (put_text d.action_data (put_text d.actioner_info rest))))

unfoldable pub get_notif : Text → Parsed NotifData
get_notif (t ∷ b ∷ s) = then_read (get_int s) (λ at s. then_read (get_text s) (λ id s.
    then_read (get_text s) (λ to s. then_read (get_text s) (λ what s.
      then_read (get_text s) (λ by s. some (
        record {
          id = id;
          receiver_info = to;
          action_data = what;
          actioner_info = by;
          action_type = get_type t;
          fired_at = at;
          is_seen = get_bool b;
        },
        s,
      ))))))
get_notif _ = none

get_notif-put : (d : NotifData) (rest : Text) → get_notif (put_notif d rest) ≡ some (d, rest)
unfolding get_notif put_notif
get_notif-put d rest =
    rw
      (
        get_int-put d.fired_at (
            put_text d.id
              (put_text d.receiver_info (put_text d.action_data (put_text d.actioner_info rest)))),
        take_text-append d.id
            (put_text d.receiver_info (put_text d.action_data (put_text d.actioner_info rest))),
        take_text-append d.receiver_info (put_text d.action_data (put_text d.actioner_info rest)),
        take_text-append d.action_data (put_text d.actioner_info rest),
        take_text-append d.actioner_info rest,
        get_type-put d.action_type,
        get_bool-put d.is_seen,
      )
      refl

unfoldable pub encode_notif : NotifData → Text
encode_notif d = put_notif d []

abbrev parsed {ℓ} : {A : Type ℓ} → Option (A × Text) → Option A
parsed none = none
parsed (some (a, _)) = some a

unfoldable pub decode_notif : Text → Option NotifData
decode_notif s = parsed (get_notif s)

pub decode-encode_notif : (d : NotifData) → decode_notif (encode_notif d) ≡ some d
unfolding decode_notif encode_notif
decode-encode_notif d = rw (get_notif-put d []) refl

unfoldable pub put_notifs : List NotifData → Text
put_notifs [] = []
put_notifs (d ∷ ds) = put_notif d (put_notifs ds)

unfoldable pub get_notifs : ℕ → Text → Option (List NotifData)
get_notifs zero s = some []
get_notifs (suc n) s = elim (get_notif s) [
  | none ↦ none
  | some (d, rest) ↦ elim (get_notifs n rest) [ none ↦ none | some ds ↦ some (d ∷ ds) ]
]

get_notifs-put : (ds : List NotifData) → get_notifs (length ds) (put_notifs ds) ≡ some ds
unfolding get_notifs put_notifs
get_notifs-put [] = refl
get_notifs-put (d ∷ ds) = rw (get_notifs, get_notif-put d (put_notifs ds), get_notifs-put ds) refl

unfoldable pub encode_events : List NotifData → Text
encode_events ds = length ds ∷ put_notifs ds

unfoldable pub decode_events : Text → Option (List NotifData)
decode_events [] = none
decode_events (n ∷ s) = get_notifs n s

pub decode-encode_events : (ds : List NotifData) → decode_events (encode_events ds) ≡ some ds
unfolding decode_events encode_events
decode-encode_events ds = get_notifs-put ds

unfoldable pub encode_config : SecureCellConfig → Text
encode_config c = put_text c.secret_key (put_text c.passphrase (put_text c.payload []))

unfoldable pub decode_config : Text → Option SecureCellConfig
decode_config s = parsed (
    then_read (get_text s) (λ k s. then_read (get_text s) (λ p s.
      then_read (get_text s)
        (λ d s. some (record { secret_key = k; passphrase = p; payload = d }, s)))))

pub decode-encode_config : (c : SecureCellConfig) → decode_config (encode_config c) ≡ some c
unfolding decode_config encode_config
decode-encode_config c =
    rw
      (
        take_text-append c.secret_key (put_text c.passphrase (put_text c.payload [])),
        take_text-append c.passphrase (put_text c.payload []),
        take_text-append c.payload [],
      )
      refl
