-- ===== src/Base/Texts.antt =====
-- A Rust `String` or `Vec<u8>` is the list of its bytes. The tests on it that the code calls from
-- the standard library: equality, `starts_with`, `split` at a byte, `from_utf8`.
use Prim.Native.Nat.{ℕ, ◌<◌}
use Prim.Native.Char.{code}
use Prim.Native.String.{String}
use mathlib.Core.Path.{◌≡◌, refl, sym, ap, ◌∙◌}
use mathlib.Core.Logic.{◌↔◌, ◌≢◌, inl, inr}
use mathlib.Core.Bool.{Bool, true, false, ◌&&◌, not}
use mathlib.Core.List.{List, [], ◌∷◌, ◌++◌}
use mathlib.Core.Option.{Option, none, some}
use native.Mathlib.Omega.{arith}
use hoopoe.Base.Tests.{leb, ltb, ◌==◌, if◌then◌else◌, Bool-cases}

abbrev pub Text : Type 0
Text = List ℕ

-- The bytes of an ASCII literal.
abbrev pub codes : String → Text
codes String.[] = []
codes (String.◌∷◌ c s) = code c ∷ codes s

unfoldable pub text_eq : Text → Text → Bool
text_eq [] [] = true
text_eq [] (b ∷ t) = false
text_eq (a ∷ s) [] = false
text_eq (a ∷ s) (b ∷ t) = (a == b) && text_eq s t

pub text_eq_refl : (s : Text) → text_eq s s ≡ true
unfolding text_eq
text_eq_refl [] = refl
text_eq_refl (a ∷ s) = ground (arith, text_eq_refl s)

pub text_eq-true : (s t : Text) → text_eq s t ≡ true → s ≡ t
unfolding text_eq
text_eq-true [] [] h = refl
text_eq-true [] (b ∷ t) h = cc
text_eq-true (a ∷ s) [] h = cc
text_eq-true (a ∷ s) (b ∷ t) h = ground (arith, text_eq-true s t)

pub text_eq_iff : (s t : Text) → (text_eq s t ≡ true) ↔ (s ≡ t)
text_eq_iff s t = (text_eq-true s t, λ e. ap (text_eq s) (sym e) ∙ text_eq_refl s)

pub text_eq-ne : (s t : Text) → s ≢ t → text_eq s t ≡ false
text_eq-ne s t h = elim (Bool-cases (text_eq s t)) [
  | inl e ↦ absurd (h (text_eq-true s t e))
  | inr e ↦ e
]

-- A common prefix does not matter.
pub text_eq-append_left : (p s t : Text) → text_eq (p ++ s) (p ++ t) ≡ text_eq s t
unfolding text_eq
text_eq-append_left [] s t = refl
text_eq-append_left (a ∷ p) s t = ground (arith, text_eq-append_left p s t)

unfoldable pub starts_with : Text → Text → Bool
starts_with s [] = true
starts_with [] (b ∷ p) = false
starts_with (a ∷ s) (b ∷ p) = (a == b) && starts_with s p

-- One more byte in the first piece.
abbrev cons_first : ℕ → List Text → List Text
cons_first a [] = (a ∷ []) ∷ []
cons_first a (p ∷ ps) = (a ∷ p) ∷ ps

-- `s.split(sep).collect()`: the pieces between the separators, at least one.
unfoldable pub split : ℕ → Text → List Text
split sep [] = [] ∷ []
split sep (a ∷ s) = let rest = split sep s in if a == sep then [] ∷ rest else cons_first a rest

abbrev pub no_sep : ℕ → Text → Bool
no_sep sep [] = true
no_sep sep (a ∷ s) = not (a == sep) && no_sep sep s

pub split-no_sep : (sep : ℕ) (s : Text) → no_sep sep s ≡ true → split sep s ≡ s ∷ []
unfolding split
split-no_sep sep [] h = refl
split-no_sep sep (a ∷ s) h = ground (arith, split-no_sep sep s)

-- The first piece ends at the first separator.
pub split-first :
    (sep : ℕ) (s rest : Text)
    → no_sep sep s ≡ true
    → split sep (s ++ sep ∷ rest) ≡ s ∷ split sep rest
unfolding split
split-first sep [] rest h = ground arith
split-first sep (a ∷ s) rest h = ground (arith, split-first sep s rest)

-- What `from_utf8` accepts, by the Unicode table: the ranges of the bytes that must follow.
abbrev Range : Type 0
Range = ℕ × ℕ

abbrev cont : Range
cont = (0x80, 0xBF)

unfoldable pub lead_bytes : ℕ → Option (List Range)
lead_bytes b =
    if ltb b 0x80
    then some []
    else if ltb b 0xC2
    then none
    else if ltb b 0xE0
    then some (cont ∷ [])
    else if b == 0xE0
    then some ((0xA0, 0xBF) ∷ cont ∷ [])
    else if b == 0xED
    then some ((0x80, 0x9F) ∷ cont ∷ [])
    else if ltb b 0xF0
    then some (cont ∷ cont ∷ [])
    else if b == 0xF0
    then some ((0x90, 0xBF) ∷ cont ∷ cont ∷ [])
    else if ltb b 0xF4
    then some (cont ∷ cont ∷ cont ∷ [])
    else if b == 0xF4
    then some ((0x80, 0x8F) ∷ cont ∷ cont ∷ [])
    else none

utf8_from : List Range → Text → Bool
unfolding lead_bytes
utf8_from [] [] = true
utf8_from (p ∷ ps) [] = false
utf8_from ((lo, hi) ∷ ps) (b ∷ s) = leb lo b && leb b hi && utf8_from ps s
utf8_from [] (b ∷ s) = elim (lead_bytes b) [ none ↦ false | some ps ↦ utf8_from ps s ]

unfoldable pub is_utf8 : Text → Bool
unfolding utf8_from
is_utf8 s = utf8_from [] s

pub is_utf8-ascii : (b : ℕ) (s : Text) → b < 0x80 → is_utf8 (b ∷ s) ≡ is_utf8 s
unfolding is_utf8 utf8_from lead_bytes
is_utf8-ascii b s small = ground (arith, small)

pub empty_utf8 : is_utf8 [] ≡ true
unfolding is_utf8 utf8_from
empty_utf8 = refl
