-- ===== src/Base/Texts.antt =====
-- Go strings and byte slices: lists of bytes. Literals are given by their code points, which are
-- their bytes since the program's own literals are ASCII.
use Prim.Native.Nat.{ℕ}
use Prim.Native.Char.{code}
use Prim.Native.String.{String}
use mathlib.Core.Path.{◌≡◌, refl}
use mathlib.Core.Logic.{◌↔◌}
use mathlib.Core.Bool.{Bool, true, false, ◌&&◌}
use mathlib.Core.List.{List, [], ◌∷◌}
use native.Mathlib.Omega.{arith}
use simple_api.Base.Tests.{ltb, eqb, if◌then◌else◌, Eq}

abbrev pub Text : Type 0
Text = List ℕ

abbrev pub codes : String → Text
codes String.[] = []
codes (String.◌∷◌ c s) = code c ∷ codes s

abbrev pub text_beq : Text → Text → Bool
text_beq [] [] = true
text_beq [] (y ∷ ys) = false
text_beq (x ∷ xs) [] = false
text_beq (x ∷ xs) (y ∷ ys) = eqb x y && text_beq xs ys

text_beq_refl : (a : Text) → text_beq a a ≡ true
text_beq_refl [] = refl
text_beq_refl (x ∷ xs) = ground (arith, text_beq_refl xs)

eq_of_text_beq : (a b : Text) → text_beq a b ≡ true → a ≡ b
eq_of_text_beq [] [] h = refl
eq_of_text_beq [] (y ∷ ys) h = cc
eq_of_text_beq (x ∷ xs) [] h = cc
eq_of_text_beq (x ∷ xs) (y ∷ ys) h = ground (arith, eq_of_text_beq xs ys)

pub text_beq_iff : (a b : Text) → (text_beq a b ≡ true) ↔ (a ≡ b)
text_beq_iff a b = (eq_of_text_beq a b, λ e. rw e (text_beq_refl b))

instance abbrev pub text_eq : Eq Text
text_eq = record { same = text_beq; same_iff = text_beq_iff }

-- `s < t` on strings: bytewise.
unfoldable pub text_lt : Text → Text → Bool
text_lt s [] = false
text_lt [] (y ∷ ys) = true
text_lt (x ∷ xs) (y ∷ ys) = if ltb x y then true else if eqb x y then text_lt xs ys else false
