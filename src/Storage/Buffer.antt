-- ===== src/Storage/Buffer.antt =====
-- src/storage/cruft.rs, `Buffer`. Clones share the data, so that there is one state.
use hoopoe.Base.{
  ℕ, List, [], ◌∷◌, ◌++◌, Bool, Option, none, some, if◌then◌else◌, ltb, length, is_empty,
}

pub record Buffer (T : Type 0) : Type 0 where
  pub atomic_data : List T
  pub e_size : ℕ

module _ {T : Type 0} where
  unfoldable pub new_buffer : ℕ → Buffer T
  new_buffer buf_size = record { atomic_data = []; e_size = buf_size }

  -- `none` is the error that the maximum size is reached.
  unfoldable pub push : Buffer T → T → Option (Buffer T)
  push b value =
      if ltb b.e_size (length b.atomic_data)
      then none
      else some (record b { atomic_data = b.atomic_data ++ value ∷ [] })

  unfoldable pub has_no_data : Buffer T → Bool
  has_no_data b = is_empty b.atomic_data

  unfoldable pub take : Buffer T → List T
  take b = b.atomic_data
