-- ===== src/Examples/Hex.antt =====
-- Hexadecimal with small letters.
use hoopoe.Base.{
  ℕ, Text, [], ◌∷◌, ◌+◌, ◌-◌, ◌*◌, ◌/◌, ◌%◌, ◌<◌, Option, none, some, ltb, if◌then◌else◌, ◌≡◌, refl,
  is_utf8, is_utf8-ascii, empty_utf8, true, arith, length, All,
}

unfoldable digit : ℕ → ℕ
digit n = if ltb n 10 then n + b'0' else n + 87

unfoldable value : ℕ → ℕ
value d = if ltb d 58 then d - b'0' else d - 87

unfoldable pub to_hex : Text → Text
unfolding digit
to_hex [] = []
to_hex (b ∷ rest) = digit (b / 16 % 16) ∷ digit (b % 16) ∷ to_hex rest

unfoldable pub from_hex : Text → Option Text
unfolding value
from_hex [] = some []
from_hex (h ∷ []) = none
from_hex (h ∷ l ∷ rest) = elim (from_hex rest) [
  | none ↦ none
  | some more ↦ some ((value h * 16 + value l) ∷ more)
]

value-digit : (n : ℕ) → n < 16 → value (digit n) ≡ n
unfolding value digit
value-digit n small = ground (arith, small)

digit_small : (n : ℕ) → n < 16 → digit n < 0x80
unfolding digit
digit_small n small = ground (arith, small)

byte : (b : ℕ) → b < 256 → b / 16 % 16 * 16 + b % 16 ≡ b
byte b small = omega (arith, small)

pub from_hex-to_hex : (s : Text) → All (λ x. x < 256) s → from_hex (to_hex s) ≡ some s
unfolding to_hex from_hex
from_hex-to_hex [] small = refl
from_hex-to_hex (b ∷ rest) small =
    rw
      (
        from_hex-to_hex rest small.1,
        value-digit (b / 16 % 16) (omega arith),
        value-digit (b % 16) (omega arith),
        byte b small.0,
      )
      refl

pub to_hex-utf8 : (s : Text) → is_utf8 (to_hex s) ≡ true
unfolding to_hex
to_hex-utf8 [] = empty_utf8
to_hex-utf8 (b ∷ rest) =
    rw
      (
        is_utf8-ascii (digit (b / 16 % 16)) (digit (b % 16) ∷ to_hex rest)
            (digit_small (b / 16 % 16) (omega arith)),
        is_utf8-ascii (digit (b % 16)) (to_hex rest) (digit_small (b % 16) (omega arith)),
      )
      (to_hex-utf8 rest)

pub length-to_hex : (s : Text) → length (to_hex s) ≡ 2 * length s
unfolding to_hex
length-to_hex [] = refl
length-to_hex (b ∷ rest) = omega (arith, length-to_hex rest)
