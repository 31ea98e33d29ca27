-- ===== src/ModelRewrite.antt =====
-- internal/modelrewrite: the response's model fields are set to the client's model name.
pub mod Framing
mod Tests
use simple_api.Base.{
  ℕ, Bool, true, false, not, ◌&&◌, ◌||◌, Option, none, some, List, [], ◌∷◌, ◌++◌, map, eqb,
  if◌then◌else◌, ◌==◌, nat_eq, bool_eq, pair_eq, drop, is_empty, Text, codes, text_eq, has_prefix,
  index, split,
}
use simple_api.Config.{str}
use simple_api.Json.{Json, or_keep}

abbrev pub newline : ℕ
newline = 10

-- `bytes.Join` of the parts that `split` gives, at a one-byte separator.
unfoldable pub join : ℕ → Text × List Text → Text
join sep (first, []) = first
join sep (first, p ∷ parts) = first ++ sep ∷ join sep (p, parts)

-- `bytes.Contains`.
abbrev pub is_some {ℓ} : {A : Type ℓ} → Option A → Bool
is_some none = false
is_some (some a) = true

-- `bytes.TrimRight(rest, " \t")`.
unfoldable pub trim_blanks : Text → Text
trim_blanks [] = []
trim_blanks (c ∷ s) =
    let rest = trim_blanks s in if is_empty rest && (eqb c b' ' || eqb c 9) then [] else c ∷ rest

abbrev pub starts_with_space : Text → Bool
starts_with_space [] = false
starts_with_space (c ∷ s) = eqb c b' '

module _ (j : Json) where
  abbrev pub set_if_present : Text → Text → Text → Text
  set_if_present alias path body =
      if j.exists (j.get body path) then or_keep body (j.set_value body path (str alias)) else body

  -- `rewriteModelFields`, which is `NonStream`.
  unfoldable pub rewrite_model_fields : Text → Text → Text
  rewrite_model_fields body alias =
      set_if_present alias (codes "response.model")
        (set_if_present alias (codes "message.model") (set_if_present alias (codes "model") body))

  abbrev pub has_model : Text → Bool
  has_model rest =
      j.exists (j.get rest (codes "model"))
      || (j.exists (j.get rest (codes "message.model"))
          || j.exists (j.get rest (codes "response.model")))

  -- One line of `RewriteSSEFragment`.
  unfoldable pub rewrite_line : Text → Text → Text
  unfolding rewrite_model_fields trim_blanks
  rewrite_line alias ln =
      if not (has_prefix ln (codes "data:"))
      then ln
      else let after = drop 5 ln in
        let had_space = starts_with_space after in
        let rest = trim_blanks (if had_space then drop 1 after else after) in
        if is_empty rest || (rest == codes "[DONE]" || not (j.valid rest))
        then ln
        else if not (has_model rest)
        then ln
        else codes "data:"
          ++ ((if had_space then codes " " else []) ++ rewrite_model_fields rest alias)

  -- `RewriteSSEFragment`.
  unfoldable pub rewrite_sse_fragment : Text → Text → Text
  unfolding rewrite_line join
  rewrite_sse_fragment frag alias =
      if not (is_some (index frag (codes "data:")))
      then frag
      else let (first, others) = split frag newline in
        join newline (rewrite_line alias first, map (rewrite_line alias) others)
