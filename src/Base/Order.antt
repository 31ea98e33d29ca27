-- ===== src/Base/Order.antt =====
-- The order of strings, and the order by a string first and by another order where it is equal.
use mathlib.Core.Path.{◌≡◌, refl}
use mathlib.Core.Bool.{Bool, true, false, not}
use mathlib.Core.List.{[], ◌∷◌}
use native.Mathlib.Omega.{arith}
use simple_api.Base.Tests.{if◌then◌else◌, ◌==◌, nat_eq, bool_eq, pair_eq}
use simple_api.Base.Texts.{Text, text_beq_iff, text_eq, text_lt}
use simple_api.Base.Sort.{IsOrder}

pub text_lt_irrefl : (x : Text) → text_lt x x ≡ false
unfolding text_lt
text_lt_irrefl [] = refl
text_lt_irrefl (c ∷ x) = ground (arith, text_lt_irrefl x)

pub text_lt_asym : (x y : Text) → text_lt x y ≡ true → text_lt y x ≡ false
unfolding text_lt
text_lt_asym [] [] h = refl
text_lt_asym [] (d ∷ y) h = refl
text_lt_asym (c ∷ x) [] h = cc
text_lt_asym (c ∷ x) (d ∷ y) h = ground (arith, text_lt_asym x y)

pub text_lt_trans : (x y z : Text) → text_lt y x ≡ false → text_lt z y ≡ false → text_lt z x ≡ false
unfolding text_lt
text_lt_trans [] y z h k = refl
text_lt_trans (c ∷ x) [] z h k = cc
text_lt_trans (c ∷ x) (d ∷ y) [] h k = cc
text_lt_trans (c ∷ x) (d ∷ y) (e ∷ z) h k = ground (arith, text_lt_trans x y z)

pub text_lt_total : (x y : Text) → text_lt x y ≡ false → text_lt y x ≡ false → x ≡ y
unfolding text_lt
text_lt_total [] [] h k = refl
text_lt_total [] (d ∷ y) h k = cc
text_lt_total (c ∷ x) [] h k = cc
text_lt_total (c ∷ x) (d ∷ y) h k = ground (arith, text_lt_total x y)

module _ {A : Type 0} (f : A → Text) (rest : A → A → Bool) where
  abbrev pub by_text : A → A → Bool
  by_text a b = if not (f a == f b) then text_lt (f a) (f b) else rest a b

  by_text_asym : IsOrder rest → (a b : A) → by_text a b ≡ true → by_text b a ≡ false
  by_text_asym o a b h = ground (
    arith,
    text_beq_iff (f a) (f b),
    text_beq_iff (f b) (f a),
    text_lt_asym (f a) (f b),
    o.asym a b,
  )

  by_text_trans :
      IsOrder rest → (x y z : A) → by_text y x ≡ false → by_text z y ≡ false → by_text z x ≡ false
  by_text_trans o x y z h k = ground (
    arith,
    text_beq_iff (f y) (f x),
    text_beq_iff (f z) (f y),
    text_beq_iff (f z) (f x),
    text_lt_trans (f x) (f y) (f z),
    text_lt_total (f x) (f y),
    text_lt_total (f y) (f z),
    text_lt_total (f x) (f z),
    text_lt_asym (f x) (f y),
    text_lt_asym (f y) (f z),
    o.trans x y z,
  )

  pub by_text-IsOrder : IsOrder rest → IsOrder by_text
  by_text-IsOrder o = record { asym = by_text_asym o; trans = by_text_trans o }
