-- ===== src/Cry/Random.antt =====
-- src/crypter/src/cry.rs: random texts and elements, over what the generator draws.
use hoopoe.Base.{
  ℕ, zero, suc, Text, List, [], ◌∷◌, Option, none, some, Outcome, unwrap, ◌==◌, if◌then◌else◌,
  length,
}

-- `gen_range(33..126)` for each character; the codes are ASCII.
unfoldable pub gen_random_chars : List ℕ → Text
gen_random_chars draws = draws

-- `gen_range(48..126)`; a back quote becomes an at sign.
unfoldable pub gen_random_chars_no_special : List ℕ → Text
gen_random_chars_no_special [] = []
gen_random_chars_no_special (d ∷ draws) =
    (if d == 96 then 64 else d) ∷ gen_random_chars_no_special draws

nth {ℓ} : {A : Type ℓ} → ℕ → List A → Option A
nth i [] = none
nth zero (x ∷ xs) = some x
nth (suc i) (x ∷ xs) = nth i xs

-- `choose` with the index that the seeded generator picks; an empty vector panics.
unfoldable pub get_random_elem {ℓ} : {A : Type ℓ} → (ℕ → ℕ) → List A → Outcome A
unfolding nth
get_random_elem pick xs = unwrap (nth (pick (length xs)) xs)
