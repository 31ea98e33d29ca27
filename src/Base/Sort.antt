-- ===== src/Base/Sort.antt =====
-- `sort.SliceStable`, as a stable insertion sort: an item goes behind all that are not greater.
use simple_api.Base.Tests.{if◌then◌else◌, Bool-cases}
use simple_api.Base.Lists.{All}
use mathlib.Core.Path.{◌≡◌}
use mathlib.Core.Bool.{Bool, true, false}
use mathlib.Core.Logic.{inl, inr}
use mathlib.Core.List.{List, [], ◌∷◌, Perm}
use mathlib.Core.List.Perm

-- Each item stands in the relation to all behind it.
abbrev pub Ordered : {A : Type 0} → (A → A → Type 0) → List A → Type 0
Ordered R [] = Unit
Ordered R (x ∷ xs) = All (R x) xs × Ordered R xs

module _ {A : Type 0} (less : A → A → Bool) where
  -- Into a sorted list, before the first item that it is not greater than.
  unfoldable pub insert_sorted : A → List A → List A
  insert_sorted x [] = x ∷ []
  insert_sorted x (y ∷ ys) = if less y x then y ∷ insert_sorted x ys else x ∷ y ∷ ys

  unfoldable pub sort : List A → List A
  unfolding insert_sorted
  sort [] = []
  sort (x ∷ xs) = insert_sorted x (sort xs)

  -- No item is less than one before it.
  abbrev IsSorted : List A → Type 0
  IsSorted [] = Unit
  IsSorted (x ∷ xs) = All (λ y. less y x ≡ false) xs × IsSorted xs

  insert_sorted-perm : (x : A) (ys : List A) → Perm (insert_sorted x ys) (x ∷ ys)
  unfolding insert_sorted
  insert_sorted-perm x [] = Perm.refl (x ∷ [])
  insert_sorted-perm x (y ∷ ys) = elim (Bool-cases (less y x)) [
    | inl h ↦ rw h (Perm.trans (Perm.cons y (insert_sorted-perm x ys)) (Perm.swap x y ys))
    | inr h ↦ rw h (Perm.refl (x ∷ y ∷ ys))
  ]

  pub sort-perm : (xs : List A) → Perm (sort xs) xs
  unfolding sort
  sort-perm [] = Perm.refl []
  sort-perm (x ∷ xs) = Perm.trans (insert_sorted-perm x (sort xs)) (Perm.cons x (sort-perm xs))

  All-insert_sorted :
      (P : A → Type 0) (x : A) (ys : List A) → P x → All P ys → All P (insert_sorted x ys)
  unfolding insert_sorted
  All-insert_sorted P x [] px h = (px, tt)
  All-insert_sorted P x (y ∷ ys) px (py, h) = elim (Bool-cases (less y x)) [
    | inl e ↦ rw e (py, All-insert_sorted P x ys px h)
    | inr e ↦ rw e (px, (py, h))
  ]

  pub All-sort : (P : A → Type 0) (xs : List A) → All P xs → All P (sort xs)
  unfolding sort
  All-sort P [] h = tt
  All-sort P (x ∷ xs) (px, h) = All-insert_sorted P x (sort xs) px (All-sort P xs h)

  -- What the sorting needs of the order: it is asymmetric, and not being less is transitive.
  pub record IsOrder : Type 0 where
    pub asym : (x y : A) → less x y ≡ true → less y x ≡ false
    pub trans : (x y z : A) → less y x ≡ false → less z y ≡ false → less z x ≡ false

  All-not_less :
      IsOrder
      → (x y : A) (ys : List A) → less y x ≡ false
      → All (λ z. less z y ≡ false) ys
      → All (λ z. less z x ≡ false) ys
  All-not_less o x y [] h k = tt
  All-not_less o x y (z ∷ ys) h (kz, k) = (o.trans x y z h kz, All-not_less o x y ys h k)

  insert_sorted-IsSorted :
      IsOrder → (x : A) (ys : List A) → IsSorted ys → IsSorted (insert_sorted x ys)
  unfolding insert_sorted
  insert_sorted-IsSorted o x [] h = (tt, tt)
  insert_sorted-IsSorted o x (y ∷ ys) (hy, h) = elim (Bool-cases (less y x)) [
    | inl e ↦ rw e (
      All-insert_sorted (λ z. less z y ≡ false) x ys (o.asym y x e) hy,
      insert_sorted-IsSorted o x ys h,
    )
    | inr e ↦ rw e ((e, All-not_less o x y ys e hy), (hy, h))
  ]

  sort-IsSorted : IsOrder → (xs : List A) → IsSorted (sort xs)
  unfolding sort
  sort-IsSorted o [] = tt
  sort-IsSorted o (x ∷ xs) = insert_sorted-IsSorted o x (sort xs) (sort-IsSorted o xs)

  All-map : (P Q : A → Type 0) (xs : List A) → ((x : A) → P x → Q x) → All P xs → All Q xs
  All-map P Q [] f h = tt
  All-map P Q (x ∷ xs) f (px, h) = (f x px, All-map P Q xs f h)

  IsSorted-Ordered :
      (R : A → A → Type 0) (xs : List A)
      → ((x y : A) → less y x ≡ false → R x y)
      → IsSorted xs
      → Ordered R xs
  IsSorted-Ordered R [] f h = tt
  IsSorted-Ordered R (x ∷ xs) f (hx, h) =
      (All-map (λ y. less y x ≡ false) (R x) xs (f x) hx, IsSorted-Ordered R xs f h)

  -- Sorted by the test, in the order that the test decides.
  pub sort-Ordered :
      (R : A → A → Type 0) (xs : List A)
      → IsOrder
      → ((x y : A) → less y x ≡ false → R x y)
      → Ordered R (sort xs)
  sort-Ordered R xs o f = IsSorted-Ordered R (sort xs) f (sort-IsSorted o xs)
