-- ===== src/Service/Http.antt =====
-- What the code takes from the http, base58 and chrono crates.
use hoopoe.Base.{Text, Option, some, ◌≡◌, ℤ}

pub record HttpApi : Type 0 where
  -- `HeaderValue::to_str`: the header's bytes, if they are visible ASCII.
  pub to_str : Text → Option Text
  pub to_str_same : (header text : Text) → to_str header ≡ some text → text ≡ header
  pub to_base58 : Text → Text
  -- A time some seconds later, in seconds; none where chrono's range ends.
  pub add_seconds : ℤ → ℤ → Option ℤ
