-- ===== src/Base/Dict.antt =====
-- Go maps, as association lists with one entry for each key.
use mathlib.Core.Path.{◌≡◌, refl}
use mathlib.Core.Option.{Option, none, some}
use mathlib.Core.List.{List, [], ◌∷◌}
use native.Mathlib.Omega.{arith}
use simple_api.Base.Tests.{if◌then◌else◌, Eq, ◌==◌, nat_eq, bool_eq, pair_eq}

abbrev pub Map {ℓ κ} : Type ℓ → Type κ → Type (ℓ ⊔ κ)
Map K V = List (K × V)

module _ {ℓ κ} {K : Type ℓ} {V : Type κ} ⦃e : Eq K⦄ where
  unfoldable pub lookup : K → Map K V → Option V
  lookup key [] = none
  lookup key ((other, val) ∷ entries) = if other == key then some val else lookup key entries

  unfoldable pub insert : K → V → Map K V → Map K V
  insert key val [] = (key, val) ∷ []
  insert key val (entry ∷ entries) =
      if entry.0 == key then (key, val) ∷ entries else entry ∷ insert key val entries

  unfoldable pub delete : K → Map K V → Map K V
  delete key [] = []
  delete key (entry ∷ entries) =
      if entry.0 == key then delete key entries else entry ∷ delete key entries

  pub lookup-insert :
      (key asked : K) (val : V) (entries : Map K V)
      → lookup asked (insert key val entries)
        ≡ (if key == asked then some val else lookup asked entries)
  unfolding lookup insert
  lookup-insert key asked val [] = refl
  lookup-insert key asked val ((k, w) ∷ entries) = ground (
    arith,
    e.same_iff key asked,
    e.same_iff k key,
    e.same_iff k asked,
    lookup-insert key asked val entries,
  )

  pub lookup-delete :
      (k j : K) (m : Map K V) → lookup j (delete k m) ≡ (if k == j then none else lookup j m)
  unfolding lookup delete
  lookup-delete k j [] = ground arith
  lookup-delete k j ((i, w) ∷ m) =
      ground (arith, e.same_iff k j, e.same_iff i k, e.same_iff i j, lookup-delete k j m)
