-- ===== src/ModelRewrite/Tests.antt =====
-- A fragment of two lines, over a stand-in for the JSON library that sets nothing.
use simple_api.Base.{
  ◌≡◌, refl, some, ◌∷◌, ◌++◌, map, Text, codes, has_prefix, index, contains_byte, split,
}
use simple_api.Json.Plain.{plain}
use simple_api.Json.{Json}
use simple_api.ModelRewrite.{newline, rewrite_line, rewrite_sse_fragment}
use simple_api.ModelRewrite.Framing.{KeepsLines, split-rewrite_sse_fragment}

-- Each document has every field, and setting one gives the document back with a mark before it.
abbrev marking : Json
marking = record plain { set_value = λ body path v. some (b'*' ∷ body) }

some-eq-some : (a b : Text) → some a ≡ some b → a ≡ b
some-eq-some a b h = cc

marking-KeepsLines : KeepsLines marking
unfolding contains_byte
marking-KeepsLines = record {
  one_line = λ body path alias out h e. rw (← some-eq-some (b'*' ∷ body) out e) h;
}

abbrev fragment : Text
fragment = codes "event: x" ++ newline ∷ codes "data: {} "

marked :
    rewrite_sse_fragment marking fragment (codes "m")
    ≡ codes "event: x" ++ newline ∷ codes "data: ***{}"
unfolding rewrite_sse_fragment index split has_prefix
marked = refl

split-rewrite_sse_fragment_example :
    split (rewrite_sse_fragment marking fragment (codes "m")) newline ≡ (
      rewrite_line marking (codes "m") (split fragment newline).0,
      map (rewrite_line marking (codes "m")) (split fragment newline).1,
    )
split-rewrite_sse_fragment_example =
    split-rewrite_sse_fragment marking marking-KeepsLines fragment (codes "m")
      (unfold index has_prefix in λ e. cc)
