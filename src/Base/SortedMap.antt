-- ===== src/Base/SortedMap.antt =====
-- Sorting the entries of a map, as the code does before it lists them.
use simple_api.Base.Tests.{if◌then◌else◌, Bool-cases, Eq, ◌==◌, nat_eq, bool_eq, pair_eq}
use simple_api.Base.Sort.{insert_sorted, sort}
use simple_api.Base.Dict.{Map, lookup, insert, lookup-insert}
use mathlib.Core.Path.{◌≡◌, refl, ◌∙◌}
use mathlib.Core.Bool.{Bool}
use mathlib.Core.Logic.{inl, inr}
use mathlib.Core.Option.{none, some}
use mathlib.Core.List.{[], ◌∷◌}
use native.Mathlib.Omega.{arith}

module _ {K V : Type 0} ⦃e : Eq K⦄ where
  -- No key has two entries.
  abbrev pub HasOneEach : Map K V → Type 0
  HasOneEach [] = Unit
  HasOneEach (entry ∷ m) = (lookup entry.0 m ≡ none) × HasOneEach m

  pub insert-HasOneEach :
      (key : K) (val : V) (m : Map K V) → HasOneEach m → HasOneEach (insert key val m)
  unfolding lookup insert
  insert-HasOneEach key val [] h = (refl, tt)
  insert-HasOneEach key val ((k, w) ∷ m) (hk, h) = elim (Bool-cases (k == key)) [
    | inl same ↦ rw same (ground (arith, e.same_iff k key), h)
    | inr other ↦ rw other (
      lookup-insert key k val m ∙ ground (arith, e.same_iff k key, e.same_iff key k),
      insert-HasOneEach key val m h,
    )
  ]

  module _ (less : K × V → K × V → Bool) where
    lookup-insert_sorted :
        (x : K × V) (ys : Map K V) (k : K)
        → lookup x.0 ys ≡ none
        → lookup k (insert_sorted less x ys) ≡ (if x.0 == k then some x.1 else lookup k ys)
    unfolding lookup insert_sorted
    lookup-insert_sorted x [] k h = refl
    lookup-insert_sorted x (y ∷ ys) k h =
        ground (
          arith,
          e.same_iff x.0 k,
          e.same_iff y.0 k,
          e.same_iff y.0 x.0,
          lookup-insert_sorted x ys k,
        )

    pub lookup-sort : (m : Map K V) (k : K) → HasOneEach m → lookup k (sort less m) ≡ lookup k m
    unfolding lookup sort
    lookup-sort [] k h = refl
    lookup-sort (x ∷ m) k (hx, h) =
        lookup-insert_sorted x (sort less m) k (lookup-sort m x.0 h ∙ hx)
        ∙ rw (lookup-sort m k h) refl
