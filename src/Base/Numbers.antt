-- ===== src/Base/Numbers.antt =====
-- Rust's `i64`: reading and printing in decimal, and the cast to `u64`.
use Prim.Native.Nat.{ℕ, zero, suc, ◌+◌, ◌-◌, ◌*◌, ◌/◌, ◌%◌, ◌^◌}
use mathlib.Core.Bool.{◌&&◌}
use mathlib.Core.List.{[], ◌∷◌, ◌++◌}
use mathlib.Core.Option.{Option, none, some}
use hoopoe.Base.Tests.{leb, ltb, ◌==◌, if◌then◌else◌}
use hoopoe.Base.Texts.{Text}
use hoopoe.Base.Int.{ℤ, pos, negsuc}

-- The number that the digits stand for, read on from `acc`.
unfoldable pub parse_digits : ℕ → Text → Option ℕ
parse_digits acc [] = some acc
parse_digits acc (d ∷ rest) =
    let later = parse_digits (acc * 10 + (d - b'0')) rest in
    if leb b'0' d && leb d b'9' then later else none

parse_magnitude : Text → Option ℕ
unfolding parse_digits
parse_magnitude [] = none
parse_magnitude (d ∷ rest) = parse_digits 0 (d ∷ rest)

negate : ℕ → ℤ
negate zero = pos 0
negate (suc n) = negsuc n

-- `s.parse::<i64>().ok()`: a sign, then at least one digit, and no overflow.
unfoldable pub parse_i64 : Text → Option ℤ
unfolding parse_magnitude negate
parse_i64 [] = none
parse_i64 (c ∷ rest) =
    if c == b'-'
    then (elim (parse_magnitude rest) [
      | none ↦ none
      | some n ↦ if leb n (2 ^ 63) then some (negate n) else none
    ])
    else (elim (parse_magnitude (if c == b'+' then rest else c ∷ rest)) [
      | none ↦ none
      | some n ↦ if ltb n (2 ^ 63) then some (pos n) else none
    ])

-- `s.parse::<usize>().ok()` on 64 bits: a plus sign at most, then at least one digit.
unfoldable pub parse_usize : Text → Option ℕ
unfolding parse_magnitude
parse_usize [] = none
parse_usize (c ∷ rest) = elim (parse_magnitude (if c == b'+' then rest else c ∷ rest)) [
  | none ↦ none
  | some n ↦ if ltb n (2 ^ 64) then some n else none
]

-- `z as u64`.
unfoldable pub as_u64 : ℤ → ℕ
as_u64 (pos n) = n % 2 ^ 64
as_u64 (negsuc n) = (2 ^ 64 - suc n % 2 ^ 64) % 2 ^ 64

-- The last `fuel` digits of a number, with no leading zero.
digits : ℕ → ℕ → Text
digits zero n = []
digits (suc fuel) n =
    let higher = digits fuel (n / 10) in
    if ltb n 10 then (n + b'0') ∷ [] else higher ++ (n % 10 + b'0') ∷ []

-- `format!("{}", z)`; 20 digits are enough for 64 bits.
unfoldable pub show_i64 : ℤ → Text
unfolding digits
show_i64 (pos n) = digits 20 n
show_i64 (negsuc n) = b'-' ∷ digits 20 (suc n)
