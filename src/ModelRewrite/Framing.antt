-- ===== src/ModelRewrite/Framing.antt =====
-- The rewriting of a stream's fragments keeps its lines apart.
use simple_api.Base.{
  ℕ, zero, suc, ◌≡◌, refl, ◌∙◌, ◌≢◌, inl, inr, Bool, true, false, not, ◌||◌, Option, none, some,
  List, [], ◌∷◌, ◌++◌, map, arith, eqb, if◌then◌else◌, Bool-cases, ◌==◌, nat_eq, bool_eq, pair_eq,
  drop, is_empty, All, Text, codes, text_eq, has_prefix, index, contains_byte, split,
}
use simple_api.Config.{str}
use simple_api.Json.{Json, or_keep}
use simple_api.ModelRewrite.{
  newline, join, is_some, trim_blanks, starts_with_space, set_if_present, rewrite_model_fields,
  has_model, rewrite_line, rewrite_sse_fragment,
}

-- What the code relies on of sjson: a document on one line stays on one line when a string is set
-- in it, since JSON escapes a newline within a string.
pub record KeepsLines (j : Json) : Type 0 where
  pub one_line :
      (body path alias out : Text)
      → contains_byte body newline ≡ false
      → j.set_value body path (str alias) ≡ some out
      → contains_byte out newline ≡ false

abbrev IsLine : Text → Type 0
IsLine t = contains_byte t newline ≡ false

contains_byte-append :
    (a b : Text) (c : ℕ) → contains_byte (a ++ b) c ≡ (contains_byte a c || contains_byte b c)
unfolding contains_byte
contains_byte-append [] b c = refl
contains_byte-append (x ∷ a) b c = ground (arith, contains_byte-append a b c)

-- Parts without the separator, joined by it, are split into the same parts.
split-line : (t : Text) → IsLine t → split t newline ≡ (t, [])
unfolding split contains_byte
split-line [] h = refl
split-line (c ∷ t) h =
    let head : eqb c newline ≡ false = ground (arith, h) in
    let tail : contains_byte t newline ≡ false = ground (arith, h) in
    rw (head, split-line t tail) refl

split-append :
    (t s : Text)
    → IsLine t
    → split (t ++ newline ∷ s) newline ≡ (t, (split s newline).0 ∷ (split s newline).1)
unfolding split contains_byte
split-append [] s h = refl
split-append (c ∷ t) s h =
    let head : eqb c newline ≡ false = ground (arith, h) in
    let tail : contains_byte t newline ≡ false = ground (arith, h) in
    rw (head, split-append t s tail) refl

split-join :
    (first : Text) (others : List Text)
    → IsLine first
    → All IsLine others
    → split (join newline (first, others)) newline ≡ (first, others)
unfolding join
split-join first [] h hs = split-line first h
split-join first (p ∷ others) h (now, later) =
    split-append first (join newline (p, others)) h ∙ rw (split-join p others now later) refl

split-IsLine : (s : Text) → IsLine (split s newline).0 × All IsLine (split s newline).1
unfolding split contains_byte
split-IsLine [] = (refl, tt)
split-IsLine (c ∷ s) = elim (Bool-cases (eqb c newline)) [
  | inl ends ↦ rw ends (refl, split-IsLine s)
  | inr goes ↦ let (now, later) = split-IsLine s in rw goes (ground (arith, goes, now), later)
]

module _ (j : Json) (keeps : KeepsLines j) where
  or_keep-IsLine :
      (body path alias : Text) (o : Option Text)
      → IsLine body
      → j.set_value body path (str alias) ≡ o
      → IsLine (or_keep body o)
  or_keep-IsLine body path alias none h e = h
  or_keep-IsLine body path alias (some out) h e = keeps.one_line body path alias out h e

  set_if_present-IsLine :
      (alias path body : Text) → IsLine body → IsLine (set_if_present j alias path body)
  set_if_present-IsLine alias path body h = elim (Bool-cases (j.exists (j.get body path))) [
    | inl there ↦ rw there (or_keep-IsLine body path alias _ h refl)
    | inr missing ↦ rw missing h
  ]

  rewrite_model_fields-IsLine :
      (body alias : Text) → IsLine body → IsLine (rewrite_model_fields j body alias)
  unfolding rewrite_model_fields
  rewrite_model_fields-IsLine body alias h =
      set_if_present-IsLine alias _ _
        (set_if_present-IsLine alias _ _ (set_if_present-IsLine alias _ body h))

  drop-IsLine : (n : ℕ) (t : Text) → IsLine t → IsLine (drop n t)
  unfolding contains_byte
  drop-IsLine zero t h = h
  drop-IsLine (suc n) [] h = h
  drop-IsLine (suc n) (c ∷ t) h = drop-IsLine n t (ground (arith, h))

  trim_blanks-IsLine : (t : Text) → IsLine t → IsLine (trim_blanks t)
  unfolding trim_blanks contains_byte
  trim_blanks-IsLine [] h = h
  trim_blanks-IsLine (c ∷ t) h =
      let head : eqb c newline ≡ false = ground (arith, h) in
      let tail = trim_blanks-IsLine t (ground (arith, h)) in ground (arith, head, tail)

  append-IsLine : (a b : Text) → IsLine a → IsLine b → IsLine (a ++ b)
  append-IsLine a b h k = rw (contains_byte-append a b newline) (ground (arith, h, k))

  if-IsLine : (b : Bool) (x y : Text) → IsLine x → IsLine y → IsLine (if b then x else y)
  if-IsLine true x y h k = h
  if-IsLine false x y h k = k

  -- The document of a data line, without the blanks around it.
  abbrev document : Text → Text
  document ln =
      let after = drop 5 ln in trim_blanks (if starts_with_space after then drop 1 after else after)

  rewritten-IsLine :
      (alias ln : Text)
      → IsLine ln
      → IsLine (
          codes "data:"
          ++ ((if starts_with_space (drop 5 ln) then codes " " else [])
              ++ rewrite_model_fields j (document ln) alias))
  rewritten-IsLine alias ln h =
      let after = drop-IsLine 5 ln h in
      let inner =
        if-IsLine (starts_with_space (drop 5 ln)) _ _ (drop-IsLine 1 (drop 5 ln) after) after in
      append-IsLine (codes "data:") _ (unfold contains_byte in refl) (
        append-IsLine _ _
          (if-IsLine (starts_with_space (drop 5 ln)) (codes " ") [] (unfold contains_byte in refl)
            (unfold contains_byte in refl))
          (rewrite_model_fields-IsLine (document ln) alias (trim_blanks-IsLine _ inner)))

  rewrite_line-IsLine : (alias ln : Text) → IsLine ln → IsLine (rewrite_line j alias ln)
  unfolding rewrite_line
  rewrite_line-IsLine alias ln h =
      let rest = document ln in
      if-IsLine (not (has_prefix ln (codes "data:"))) ln _ h (
        if-IsLine (is_empty rest || (rest == codes "[DONE]" || not (j.valid rest))) ln _ h
          (if-IsLine (not (has_model j rest)) ln _ h (rewritten-IsLine alias ln h)))

  All-rewrite_line :
      (alias : Text) (ts : List Text) → All IsLine ts → All IsLine (map (rewrite_line j alias) ts)
  All-rewrite_line alias [] h = tt
  All-rewrite_line alias (t ∷ ts) (now, later) =
      (rewrite_line-IsLine alias t now, All-rewrite_line alias ts later)

  -- With a JSON library that sets a string within a line: a fragment that has "data:" in it keeps its
  -- number of lines, and each line of the result is the rewriting of the line in its place.
  pub split-rewrite_sse_fragment :
      (frag alias : Text)
      → index frag (codes "data:") ≢ none
      → split (rewrite_sse_fragment j frag alias) newline ≡ (
        rewrite_line j alias (split frag newline).0,
        map (rewrite_line j alias) (split frag newline).1,
      )
  unfolding rewrite_sse_fragment
  split-rewrite_sse_fragment frag alias has =
      let (first, others) = split-IsLine frag in
      let there : is_some (index frag (codes "data:")) ≡ true = found _ has in
      rw there
        (split-join _ _ (rewrite_line-IsLine alias _ first) (All-rewrite_line alias _ others))
    where
      found : {A : Type 0} (o : Option A) → o ≢ none → is_some o ≡ true
      found none ne = absurd (ne refl)
      found (some a) ne = refl
