-- ===== src/Storage/BufferLaws.antt =====
-- How much the buffer of src/storage/cruft.rs holds.
use mathlib.Core.List.{append_assoc, append-nil}
use hoopoe.Base.{
  ℕ, suc, ◌+◌, ◌≤◌, List, [], ◌∷◌, ◌++◌, none, some, false, ◌≡◌, refl, arith, length, length-append,
  is_empty,
}
use hoopoe.Storage.Buffer.{Buffer, new_buffer, push, has_no_data, take}

module _ {T : Type 0} where
  -- Values pushed one after the other: the buffer, and how many were refused.
  unfoldable pub push_all : List T → Buffer T → ℕ → Buffer T × ℕ
  push_all [] b refused = (b, refused)
  push_all (v ∷ vs) b refused = elim (push b v) [
    | none ↦ push_all vs b (suc refused)
    | some b' ↦ push_all vs b' refused
  ]

  push_all-full :
      (zs : List T) (b : Buffer T) (refused : ℕ)
      → length b.atomic_data ≡ b.e_size + 1
      → push_all zs b refused ≡ (b, refused + length zs)
  unfolding push_all push
  push_all-full [] b refused full = ground arith
  push_all-full (z ∷ zs) b refused full =
      ground (arith, full, push_all-full zs b (suc refused) full)

  push_all-room :
      (ys zs : List T) (b : Buffer T) (refused : ℕ)
      → length b.atomic_data + length ys ≡ b.e_size + 1
      → push_all (ys ++ zs) b refused
        ≡ push_all zs (record b { atomic_data = b.atomic_data ++ ys }) refused
  unfolding push_all push
  push_all-room [] zs b refused room = rw append-nil refl
  push_all-room (y ∷ ys) zs b refused room = ground (
    arith,
    room,
    append_assoc b.atomic_data (y ∷ []) ys,
    length-append b.atomic_data (y ∷ []),
    push_all-room ys zs (record b { atomic_data = b.atomic_data ++ y ∷ [] }) refused,
  )

  not_empty : (ys : List T) → 1 ≤ length ys → is_empty ys ≡ false
  not_empty [] h = absurd (omega arith)
  not_empty (y ∷ ys) h = refl

  all_pushed :
      (n : ℕ) (ys zs : List T)
      → length ys ≡ n + 1
      → push_all (ys ++ zs) (new_buffer n) 0 ≡ (record { atomic_data = ys; e_size = n }, length zs)
  unfolding new_buffer
  all_pushed n ys zs full = ground (
    arith,
    push_all-room ys zs (record { atomic_data = []; e_size = n }) 0 (omega (arith, full)),
    push_all-full zs (record { atomic_data = ys; e_size = n }) 0 full,
  )

  -- A new buffer for n values takes n + 1 values, in their order, and refuses each value after those.
  pub buffer_holds_one_more :
      (n : ℕ) (ys zs : List T)
      → length ys ≡ n + 1
      → let (b, refused) = push_all (ys ++ zs) (new_buffer n) 0 in
        (take b ≡ ys) × (has_no_data b ≡ false) × (refused ≡ length zs)
  unfolding new_buffer take has_no_data
  buffer_holds_one_more n ys zs full = (
    ground (arith, all_pushed n ys zs full),
    ground (arith, all_pushed n ys zs full, not_empty ys (omega (arith, full))),
    ground (arith, all_pushed n ys zs full),
  )
