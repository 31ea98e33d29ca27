-- ===== src/Config/Expansion.antt =====
-- `ExpandEnv` goes from placeholder to placeholder.
use simple_api.Base.{
  ℕ, suc, ◌+◌, ◌≡◌, refl, ap, ◌∙◌, false, Option, none, some, [], ◌∷◌, ◌++◌, append-nil, arith, eqb,
  length, Text, codes, has_prefix, contains_byte,
}
use simple_api.Config.Names.{index_byte-append, take-length-append}
use simple_api.Config.Env.{placeholder, value_of, expand_from, expand_env}

abbrev pub dollar : ℕ
dollar = 36

abbrev pub close_brace : ℕ
close_brace = 125

module _ (getenv : Text → Option Text) where
  expand_from-behind :
      (inner b : Text) (c : ℕ)
      → expand_from getenv (length inner + 1) (inner ++ c ∷ b) ≡ expand_from getenv 0 b
  unfolding expand_from
  expand_from-behind [] b c = refl
  expand_from-behind (x ∷ inner) b c =
      let e : suc (length inner) + 1 ≡ suc (length inner + 1) = omega arith in
      rw e (expand_from-behind inner b c)

  plain : (c : ℕ) (s : Text) → eqb c dollar ≡ false → placeholder (c ∷ s) ≡ none
  plain c s h = unfold has_prefix in rw h refl

  -- In front of a `$` nothing changes.
  expand_from-plain :
      (a s : Text)
      → contains_byte a dollar ≡ false
      → expand_from getenv 0 (a ++ s) ≡ a ++ expand_from getenv 0 s
  unfolding expand_from contains_byte
  expand_from-plain [] s h = refl
  expand_from-plain (c ∷ a) s h =
      let head : eqb c dollar ≡ false = ground (arith, h) in
      let tail : contains_byte a dollar ≡ false = ground (arith, h) in
      rw (plain c (a ++ s) head, expand_from) (ap (λ t. c ∷ t) (expand_from-plain a s tail))

  placeholder-length :
      (inner b : Text)
      → contains_byte inner close_brace ≡ false
      → placeholder (codes "${" ++ (inner ++ close_brace ∷ b)) ≡ some (length inner)
  placeholder-length inner b h = unfold has_prefix in index_byte-append inner b close_brace h

  expand_from-placeholder :
      (inner b : Text)
      → contains_byte inner close_brace ≡ false
      → expand_from getenv 0 (codes "${" ++ (inner ++ close_brace ∷ b))
        ≡ value_of getenv inner ++ expand_from getenv 0 b
  unfolding expand_from
  expand_from-placeholder inner b h =
      rw (placeholder-length inner b h, expand_from)
        (let e : length inner + 2 ≡ suc (length inner + 1) = omega arith in
          rw (e, take-length-append inner (close_brace ∷ b), expand_from-behind inner b close_brace)
            refl)

  -- A text without `$` is left as it is.
  pub expand_env-plain : (a : Text) → contains_byte a dollar ≡ false → expand_env getenv a ≡ a
  unfolding expand_env
  expand_env-plain a h = let e = expand_from-plain a [] h in rw (append-nil a) at e

  -- The first placeholder of a text, with no `$` in front of it and no `}` within, is replaced by its
  -- value; what stands in front of it stays, and the rest is expanded by itself, so that the value
  -- is not expanded again.
  pub expand_env-append :
      (a inner b : Text)
      → contains_byte a dollar ≡ false
      → contains_byte inner close_brace ≡ false
      → expand_env getenv (a ++ (codes "${" ++ (inner ++ close_brace ∷ b)))
        ≡ a ++ (value_of getenv inner ++ expand_env getenv b)
  unfolding expand_env expand_from
  expand_env-append a inner b h k =
      expand_from-plain a (codes "${" ++ (inner ++ close_brace ∷ b)) h
      ∙ ap (λ t. a ++ t) (expand_from-placeholder inner b k)
