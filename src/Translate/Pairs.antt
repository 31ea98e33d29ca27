-- ===== src/Translate/Pairs.antt =====
-- internal/translate/pairs.go: the six registered pairs. The JSON text of an event, and `json.Marshal`,
-- are arguments.
use simple_api.Base.{Option, none, some, List, [], ◌∷◌, ◌++◌, Text}
use simple_api.Config.{anthropic, openai_completion, codex}
use simple_api.Json.{Json}
use simple_api.Translate.{StreamState, Pair, Registry, register}
use simple_api.Translate.Doc.{Marshal, bytes_of}
use simple_api.Translate.Anthropic.{
  parse_anthropic_request, parse_anthropic_response, build_anthropic_request,
  build_anthropic_response,
}
use simple_api.Translate.Openai.{parse_openai_request, parse_openai_response}
use simple_api.Translate.Openai.Build.{build_openai_request, build_openai_response}
use simple_api.Translate.Codex.{parse_codex_request, parse_codex_response}
use simple_api.Translate.Codex.Build.{build_codex_request, build_codex_response}
use simple_api.Translate.Stream.{
  AnthropicEvent, OpenaiChunk, CodexEvent, openai_to_anthropic, codex_to_anthropic,
  anthropic_to_codex, openai_to_codex, codex_to_openai, anthropic_to_openai,
}

pub record Printer : Type 0 where
  pub anthropic_text : AnthropicEvent → Text
  pub openai_text : OpenaiChunk → Text
  pub codex_text : CodexEvent → Text
  pub marshal : Marshal

abbrev or_nil : Option Text → Text
or_nil none = []
or_nil (some chunk) = chunk

unfoldable pub write_events : {E : Type 0} → (E → Text) → List E → Text
write_events text [] = []
write_events text (e ∷ es) = text e ++ write_events text es

-- A transform of chunks as a `StreamChunkTransform`; none of the six returns an error.
abbrev pub as_transform :
    {E : Type 0}
    → (E → Text)
    → (Text → StreamState → List E × StreamState)
    → Option Text
    → StreamState
    → Option Text × StreamState
as_transform text f chunk st =
    let (events, st') = f (or_nil chunk) st in (some (write_events text events), st')

module _ (j : Json) (p : Printer) where
  -- The bodies that a pair makes of a body.
  unfoldable pub anthropic_to_openai_request : Text → Text
  unfolding parse_anthropic_request build_openai_request bytes_of
  anthropic_to_openai_request b =
      bytes_of p.marshal (build_openai_request j (parse_anthropic_request j b))

  unfoldable pub openai_to_anthropic_response : Text → Text
  unfolding parse_openai_response build_anthropic_response bytes_of
  openai_to_anthropic_response b =
      bytes_of p.marshal (build_anthropic_response (parse_openai_response j b))

  unfoldable pub openai_to_anthropic_request : Text → Text
  unfolding parse_openai_request build_anthropic_request bytes_of
  openai_to_anthropic_request b =
      bytes_of p.marshal (build_anthropic_request (parse_openai_request j b))

  unfoldable pub anthropic_to_openai_response : Text → Text
  unfolding parse_anthropic_response build_openai_response bytes_of
  anthropic_to_openai_response b =
      bytes_of p.marshal (build_openai_response j (parse_anthropic_response j b))

  unfoldable pub anthropic_to_codex_request : Text → Text
  unfolding parse_anthropic_request build_codex_request bytes_of
  anthropic_to_codex_request b =
      bytes_of p.marshal (build_codex_request j (parse_anthropic_request j b))

  unfoldable pub codex_to_anthropic_response : Text → Text
  unfolding parse_codex_response build_anthropic_response bytes_of
  codex_to_anthropic_response b =
      bytes_of p.marshal (build_anthropic_response (parse_codex_response j b))

  unfoldable pub codex_to_anthropic_request : Text → Text
  unfolding parse_codex_request build_anthropic_request bytes_of
  codex_to_anthropic_request b =
      bytes_of p.marshal (build_anthropic_request (parse_codex_request j b))

  unfoldable pub anthropic_to_codex_response : Text → Text
  unfolding parse_anthropic_response build_codex_response bytes_of
  anthropic_to_codex_response b =
      bytes_of p.marshal (build_codex_response j (parse_anthropic_response j b))

  unfoldable pub openai_to_codex_request : Text → Text
  unfolding parse_openai_request build_codex_request bytes_of
  openai_to_codex_request b = bytes_of p.marshal (build_codex_request j (parse_openai_request j b))

  unfoldable pub codex_to_openai_response : Text → Text
  unfolding parse_codex_response build_openai_response bytes_of
  codex_to_openai_response b =
      bytes_of p.marshal (build_openai_response j (parse_codex_response j b))

  unfoldable pub codex_to_openai_request : Text → Text
  unfolding parse_codex_request build_openai_request bytes_of
  codex_to_openai_request b = bytes_of p.marshal (build_openai_request j (parse_codex_request j b))

  unfoldable pub openai_to_codex_response : Text → Text
  unfolding parse_openai_response build_codex_response bytes_of
  openai_to_codex_response b =
      bytes_of p.marshal (build_codex_response j (parse_openai_response j b))

  -- A pair of two conversions that return no error.
  abbrev pub pair_of :
      (Text → Text) → (Text → Text) → (Option Text → StreamState → Option Text × StreamState) → Pair
  pair_of request response transform = record {
    request = λ b. some (request b);
    response = λ b. some (response b);
    response_stream = transform;
  }

  -- The registry after `init`.
  unfoldable pub pairs : Registry
  unfolding register openai_to_anthropic anthropic_to_openai codex_to_anthropic anthropic_to_codex
      codex_to_openai openai_to_codex write_events anthropic_to_openai_request
      openai_to_anthropic_response openai_to_anthropic_request anthropic_to_openai_response
      anthropic_to_codex_request codex_to_anthropic_response codex_to_anthropic_request
      anthropic_to_codex_response openai_to_codex_request codex_to_openai_response
      codex_to_openai_request openai_to_codex_response
  pairs =
      register codex openai_completion
        (pair_of codex_to_openai_request openai_to_codex_response
          (as_transform p.codex_text (openai_to_codex j)))
        (register openai_completion codex
          (pair_of openai_to_codex_request codex_to_openai_response
            (as_transform p.openai_text (codex_to_openai j)))
          (register codex anthropic
            (pair_of codex_to_anthropic_request anthropic_to_codex_response
              (as_transform p.codex_text (anthropic_to_codex j)))
            (register anthropic codex
              (pair_of anthropic_to_codex_request codex_to_anthropic_response
                (as_transform p.anthropic_text (codex_to_anthropic j)))
              (register openai_completion anthropic
                (pair_of openai_to_anthropic_request anthropic_to_openai_response
                  (as_transform p.openai_text (anthropic_to_openai j)))
                (register anthropic openai_completion
                  (pair_of anthropic_to_openai_request openai_to_anthropic_response
                    (as_transform p.anthropic_text (openai_to_anthropic j)))
                  [])))))
