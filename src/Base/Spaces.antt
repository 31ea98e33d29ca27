-- ===== src/Base/Spaces.antt =====
-- `strings.TrimSpace`, on UTF-8: what `unicode.IsSpace` holds for, by the bytes of the rune.
use Prim.Native.Nat.{ℕ, zero, suc}
use mathlib.Core.Bool.{Bool, false, ◌&&◌, ◌||◌}
use mathlib.Core.List.{[], ◌∷◌}
use simple_api.Base.Tests.{leb, eqb, if◌then◌else◌}
use simple_api.Base.Texts.{Text}

abbrev pub is_ascii_space : ℕ → Bool
is_ascii_space c = leb 9 c && leb c 13 || eqb c 32

-- U+0085 and U+00A0.
abbrev pub is_space2 : ℕ → ℕ → Bool
is_space2 a b = eqb a 194 && (eqb b 133 || eqb b 160)

-- U+1680, U+2000 to U+200A, U+2028, U+2029, U+202F, U+205F and U+3000.
abbrev pub is_space3 : ℕ → ℕ → ℕ → Bool
is_space3 a b c =
    eqb a 225 && (eqb b 154 && eqb c 128)
    || eqb a 226
      && (eqb b 128 && (leb 128 c && leb c 138 || (eqb c 168 || (eqb c 169 || eqb c 175)))
          || eqb b 129 && eqb c 159)
    || eqb a 227 && (eqb b 128 && eqb c 128)

-- The length of the space that the text starts with; 0 where it starts with none.
pub space_width : Text → ℕ
space_width [] = 0
space_width (a ∷ []) = if is_ascii_space a then 1 else 0
space_width (a ∷ b ∷ []) = if is_ascii_space a then 1 else if is_space2 a b then 2 else 0
space_width (a ∷ b ∷ c ∷ s) =
    if is_ascii_space a then 1 else if is_space2 a b then 2 else if is_space3 a b c then 3 else 0

-- The text behind `skip` bytes, without the spaces there.
pub trim_left_from : ℕ → Text → Text
unfolding space_width
trim_left_from skip [] = []
trim_left_from (suc skip) (c ∷ s) = trim_left_from skip s
trim_left_from zero (c ∷ s) = elim (space_width (c ∷ s)) [
  | zero ↦ c ∷ s
  | suc w ↦ trim_left_from w s
]

-- Nothing but spaces, behind `skip` bytes.
pub is_blank_from : ℕ → Text → Bool
unfolding space_width
is_blank_from skip [] = eqb skip 0
is_blank_from (suc skip) (c ∷ s) = is_blank_from skip s
is_blank_from zero (c ∷ s) = elim (space_width (c ∷ s)) [ zero ↦ false | suc w ↦ is_blank_from w s ]

pub trim_right : Text → Text
unfolding is_blank_from
trim_right [] = []
trim_right (c ∷ s) = let rest = trim_right s in if is_blank_from 0 (c ∷ s) then [] else c ∷ rest

unfoldable pub trim_space : Text → Text
unfolding trim_left_from trim_right
trim_space s = trim_right (trim_left_from 0 s)
