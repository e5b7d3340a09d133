-- ===== src/Examples/Toy.antt =====
-- The services of the examples.
use hoopoe.Base.{
  ℕ, Text, List, [], ◌∷◌, Bool, true, Option, none, some, ◌≡◌, refl, if◌then◌else◌, ltb, leb, ◌==◌,
  ◌||◌, ◌&&◌, ◌^◌, ◌≤◌, ◌<◌, text_eq, is_some, arith, All, ℤ, pos, ◌+◌,
}
use hoopoe.Models.{SecureCellConfig}
use hoopoe.Service.{Services}
use hoopoe.Service.Redis.{RedisApi}
use hoopoe.Service.Serde.{SerdeApi}
use hoopoe.Service.Cell.{CellApi}
use hoopoe.Service.Http.{HttpApi}
use hoopoe.Examples.Hex.{to_hex, from_hex, from_hex-to_hex, to_hex-utf8, length-to_hex}
use hoopoe.Examples.Wire.{
  encode_notif, decode_notif, decode-encode_notif, encode_events, decode_events,
  decode-encode_events, encode_config, decode_config, decode-encode_config,
}

pub record Entry : Type 0 where
  pub key : Text
  pub value : Text
  pub expiry : Option ℕ

abbrev find : List Entry → Text → Option Entry
find [] k = none
find (e ∷ es) k = if text_eq e.key k then some e else find es k

abbrev value_of : Option Entry → Option Text
value_of none = none
value_of (some e) = some e.value

abbrev expiry_of : Option Entry → Option ℕ
expiry_of none = none
expiry_of (some e) = e.expiry

abbrev setex : List Entry → Text → Text → ℕ → Option (List Entry)
setex s k v n =
    if (n == 0) || leb (2 ^ 63) n
    then none
    else some (record { key = k; value = v; expiry = some n } ∷ s)

pub setex_accepts :
    (s : List Entry) (k v : Text) (n : ℕ) → 0 < n → n < 2 ^ 31 → is_some (setex s k v n) ≡ true
setex_accepts s k v n p small = ground (arith, p, small)

pub setex_refuses : (s : List Entry) (k v : Text) (n : ℕ) → 2 ^ 63 ≤ n → setex s k v n ≡ none
setex_refuses s k v n large = ground (arith, large)

pub get-setex :
    (s t : List Entry) (k v : Text) (n : ℕ) (j : Text)
    → setex s k v n ≡ some t
    → value_of (find t j) ≡ (if text_eq k j then some v else value_of (find s j))
get-setex s t k v n j e = ground arith

pub ttl-setex :
    (s t : List Entry) (k v : Text) (n : ℕ) (j : Text)
    → setex s k v n ≡ some t
    → expiry_of (find t j) ≡ (if text_eq k j then some n else expiry_of (find s j))
ttl-setex s t k v n j e = ground arith

abbrev put : List Entry → Text → Text → List Entry
put s k v = record { key = k; value = v; expiry = none } ∷ s

pub get-put :
    (s : List Entry) (k v j : Text)
    → value_of (find (put s k v) j) ≡ (if text_eq k j then some v else value_of (find s j))
get-put s k v j = ground arith

pub ttl-put :
    (s : List Entry) (k v j : Text)
    → expiry_of (find (put s k v) j) ≡ (if text_eq k j then none else expiry_of (find s j))
ttl-put s k v j = ground arith

abbrev pub redis : RedisApi
redis = record {
  Store = List Entry;
  get = λ s k. value_of (find s k);
  exists = λ s k. is_some (value_of (find s k));
  ttl = λ s k. expiry_of (find s k);
  set = put;
  set_ex = setex;
  exists-get = λ s k. refl;
  get-set = get-put;
  ttl-set = ttl-put;
  set_ex_refuses_zero = λ s k v. refl;
  set_ex_refuses_large = setex_refuses;
  set_ex_accepts = setex_accepts;
  get-set_ex = get-setex;
  ttl-set_ex = ttl-setex;
}

abbrev serde : SerdeApi
serde = record {
  encode_notif = encode_notif;
  decode_notif = decode_notif;
  decode-encode_notif = decode-encode_notif;
  encode_events = encode_events;
  decode_events = decode_events;
  decode-encode_events = decode-encode_events;
  encode_config = encode_config;
  decode_config = decode_config;
  decode-encode_config = decode-encode_config;
}

abbrev are_bytes : Text → Bool
are_bytes [] = true
are_bytes (b ∷ s) = ltb b 256 && are_bytes s

are_bytes-All : (s : Text) → are_bytes s ≡ true → All (λ x. x < 256) s
are_bytes-All [] e = tt
are_bytes-All (b ∷ s) e = (ground arith, are_bytes-All s (ground arith))

abbrev sealed : SecureCellConfig → Option Text
sealed c = if are_bytes c.payload then some c.payload else none

pub sealed-bytes : (c : SecureCellConfig) (s : Text) → sealed c ≡ some s → All (λ x. x < 256) s
sealed-bytes c s e = ground (arith, are_bytes-All c.payload)

pub opened-sealed : (c : SecureCellConfig) (s : Text) → sealed c ≡ some s → some s ≡ some c.payload
opened-sealed c s e = ground arith

abbrev cell : CellApi
cell = record {
  hex_encode = to_hex;
  hex_decode = from_hex;
  decode-encode_hex = from_hex-to_hex;
  hex_encode-utf8 = to_hex-utf8;
  length-hex_encode = length-to_hex;
  secure_cell_encrypt = sealed;
  secure_cell_decrypt = λ c. some c.payload;
  secure_cell_encrypt-bytes = sealed-bytes;
  decrypt-encrypt = opened-sealed;
}

abbrev pub toy : Services
toy = record { redis = redis; serde = serde; cell = cell }

abbrev plus : ℤ → ℤ → Option ℤ
plus (pos a) (pos b) = some (pos (a + b))
plus _ _ = none

pub to_str_same : (header text : Text) → some header ≡ some text → text ≡ header
to_str_same header text e = cc

abbrev pub http : HttpApi
http = record {
  to_str = some;
  to_str_same = to_str_same;
  to_base58 = λ t. b'z' ∷ to_hex t;
  add_seconds = plus;
}
