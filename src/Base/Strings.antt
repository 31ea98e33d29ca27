-- ===== src/Base/Strings.antt =====
-- The functions of Go's package `strings` that the program calls, on byte strings, with their laws.
use simple_api.Base.Tests.{eqb, if◌then◌else◌, Bool-cases}
use simple_api.Base.Lists.{length, drop, length-append}
use simple_api.Base.Texts.{Text}
use Prim.Native.Nat.{ℕ, zero, suc, ◌+◌, ◌≤◌}
use mathlib.Core.Path.{◌≡◌, refl, ap, sym, ◌∙◌}
use mathlib.Core.Bool.{Bool, true, false, ◌&&◌, ◌||◌}
use mathlib.Core.Logic.{inl, inr}
use mathlib.Core.Option.{Option, none, some}
use mathlib.Core.Option
use mathlib.Core.List.{List, [], ◌∷◌, ◌++◌, append_assoc, reverse, reverse-append, reverse-reverse}
use native.Mathlib.Omega.{arith}

unfoldable pub has_prefix : Text → Text → Bool
has_prefix s [] = true
has_prefix [] (y ∷ ys) = false
has_prefix (x ∷ xs) (y ∷ ys) = eqb x y && has_prefix xs ys

unfoldable pub has_suffix : Text → Text → Bool
unfolding has_prefix
has_suffix s p = has_prefix (reverse s) (reverse p)

-- `strings.Index`: the first position at which `p` occurs.
unfoldable pub index : Text → Text → Option ℕ
unfolding has_prefix
index [] p = if has_prefix [] p then some 0 else none
index (c ∷ s) p = if has_prefix (c ∷ s) p then some 0 else Option.map suc (index s p)

-- `strings.IndexByte`, and `strings.Contains` of a one-byte text.
unfoldable pub index_byte : Text → ℕ → Option ℕ
index_byte [] c = none
index_byte (x ∷ xs) c = if eqb x c then some 0 else Option.map suc (index_byte xs c)

unfoldable pub contains_byte : Text → ℕ → Bool
contains_byte [] c = false
contains_byte (x ∷ xs) c = eqb x c || contains_byte xs c

-- `strings.Split` at a one-byte separator: the first part and the others.
unfoldable pub split : Text → ℕ → Text × List Text
split [] sep = ([], [])
split (c ∷ s) sep =
    let (first, others) = split s sep in
    if eqb c sep then ([], first ∷ others) else (c ∷ first, others)

pub has_prefix-append : (p w : Text) → has_prefix (p ++ w) p ≡ true
unfolding has_prefix
has_prefix-append [] w = refl
has_prefix-append (x ∷ p) w = ground (arith, has_prefix-append p w)

pub has_prefix_sound : (s p : Text) → has_prefix s p ≡ true → s ≡ p ++ drop (length p) s
unfolding has_prefix
has_prefix_sound s [] h = refl
has_prefix_sound [] (y ∷ ys) h = cc
has_prefix_sound (x ∷ xs) (y ∷ ys) h = ground (arith, has_prefix_sound xs ys)

pub drop-length-append : (p w : Text) → drop (length p) (p ++ w) ≡ w
drop-length-append [] w = refl
drop-length-append (x ∷ p) w = drop-length-append p w

pub drop-append : (n : ℕ) (a b : Text) → n ≤ length a → drop n (a ++ b) ≡ drop n a ++ b
drop-append zero a b h = refl
drop-append (suc n) [] b h = elim h [ ]
drop-append (suc n) (x ∷ a) b h = drop-append n a b (omega arith)

pub drop-add : (i n : ℕ) (s : Text) → drop (i + n) s ≡ drop n (drop i s)
drop-add zero n s = ap (λ k. drop k s) (omega arith)
drop-add (suc i) n [] = let e : suc i + n ≡ suc (i + n) = omega arith in rw e (nil n)
  where
    nil : (n : ℕ) → [] ≡ drop {A = ℕ} n []
    nil zero = refl
    nil (suc n) = refl
drop-add (suc i) n (x ∷ s) = let e : suc i + n ≡ suc (i + n) = omega arith in rw e (drop-add i n s)

pub has_suffix-append : (u p : Text) → has_suffix (u ++ p) p ≡ true
unfolding has_suffix
has_suffix-append u p = rw (reverse-append u p) (has_prefix-append (reverse p) (reverse u))

pub has_suffix_sound : (s p : Text) → has_suffix s p ≡ true → (u : Text) × (s ≡ u ++ p)
unfolding has_suffix
has_suffix_sound s p h =
    let rest = drop (length (reverse p)) (reverse s) in
    (
      reverse rest,
      sym (reverse-reverse s)
          ∙ ap reverse (has_prefix_sound (reverse s) (reverse p) h)
          ∙ reverse-append (reverse p) rest
          ∙ ap (λ t. reverse rest ++ t) (reverse-reverse p),
    )

pub index_here : (s p : Text) → has_prefix s p ≡ true → index s p ≡ some 0
unfolding index
index_here [] p h = rw h
index_here (c ∷ s) p h = rw h

index_nowhere : (p : Text) → has_prefix [] p ≡ false → index [] p ≡ none
unfolding index
index_nowhere p h = rw h

pub map-suc-eq-some :
    (o : Option ℕ) {i : ℕ} → Option.map suc o ≡ some i → (j : ℕ) × (o ≡ some j) × (i ≡ suc j)
map-suc-eq-some none h = cc
map-suc-eq-some (some j) h = (j, refl, cc)

index_later :
    (c : ℕ) (s p : Text)
    → has_prefix (c ∷ s) p ≡ false
    → index (c ∷ s) p ≡ Option.map suc (index s p)
unfolding index
index_later c s p h = rw h

-- What `index` finds splits the text around an occurrence.
pub index_sound :
    (s p : Text) (i : ℕ)
    → index s p ≡ some i
    → (u : Text) × (s ≡ u ++ (p ++ drop (length p) (drop i s)))
index_sound [] p i h = elim (Bool-cases (has_prefix [] p)) [
  | inl here ↦
      let e : i ≡ 0 = cc (h, index_here [] p here) in ([], rw e (has_prefix_sound [] p here))
  | inr away ↦ cc (h, index_nowhere p away)
]
index_sound (c ∷ s) p i h = elim (Bool-cases (has_prefix (c ∷ s) p)) [
  | inl here ↦
      let e : i ≡ 0 = cc (h, index_here (c ∷ s) p here) in
      ([], rw e (has_prefix_sound (c ∷ s) p here))
  | inr later ↦
      let (j, found, e) = map-suc-eq-some (index s p) (sym (index_later c s p later) ∙ h) in
      let (u, split_at) = index_sound s p j found in (c ∷ u, rw e (ap (λ t. c ∷ t) split_at))
]

-- The leftmost occurrence leaves every text that some occurrence leaves, behind a run of bytes.
pub index_complete :
    (u p w : Text)
    → (i : ℕ) × (x : Text) × (index (u ++ (p ++ w)) p ≡ some i)
      × (drop (length p) (drop i (u ++ (p ++ w))) ≡ x ++ w)
index_complete [] p w =
    (0, [], index_here (p ++ w) p (has_prefix-append p w), drop-length-append p w)
index_complete (c ∷ u) p w = elim (Bool-cases (has_prefix (c ∷ (u ++ (p ++ w))) p)) [
  | inl here ↦ (
    0,
    drop (length p) ((c ∷ u) ++ p),
    index_here _ p here,
    sym (ap (drop (length p)) (append_assoc (c ∷ u) p w))
        ∙ drop-append (length p) (c ∷ (u ++ p)) w (omega (arith, length-append u p)),
  )
  | inr later ↦
      let (i, x, found, left) = index_complete u p w in
      (suc i, x, index_later c _ p later ∙ ap (Option.map suc) found, left)
]
