-- ===== src/Translate/Tests.antt =====
-- Streams through the transforms, over stand-ins for the JSON library.
use simple_api.Base.{
  ℕ, ◌+◌, ◌≡◌, refl, none, some, List, [], ◌∷◌, if◌then◌else◌, ◌==◌, nat_eq, bool_eq, pair_eq, Text,
  codes, text_eq,
}
use simple_api.Base.Dict.{lookup, insert}
use simple_api.Json.Plain.{plain}
use simple_api.Json.{Json}
use simple_api.Translate.{new_state}
use simple_api.Translate.Stream.{
  run_stream, openai_to_anthropic, codex_to_anthropic, anthropic_to_openai,
}
use simple_api.Translate.Blocks.{
  new_reader, read_all, reader_of, openai_to_anthropic-read_all, text_of, content_of,
  openai_to_anthropic-text_of,
}
use simple_api.Translate.Tools.{tool_indices, count_from, anthropic_to_openai-tool_indices}

-- The field `type` is the document's own text, and every other field is "tool_use".
abbrev typed : Json
typed = record plain {
  get = λ body path. if path == codes "type" then body else codes "tool_use";
  sub = λ node path. codes "tool_use";
}

abbrev chunks : List Text
chunks = codes "content_block_start" ∷ codes "content_block_stop" ∷ codes "content_block_stop" ∷ []

openai_to_anthropic-read_all_example :
    read_all (run_stream (openai_to_anthropic typed) chunks new_state).0 new_reader
    ≡ some (reader_of (run_stream (openai_to_anthropic typed) chunks new_state).1)
openai_to_anthropic-read_all_example = openai_to_anthropic-read_all typed chunks

openai_to_anthropic-text_of_example :
    text_of (run_stream (openai_to_anthropic typed) chunks new_state).0 ≡ content_of typed chunks
openai_to_anthropic-text_of_example = openai_to_anthropic-text_of typed chunks new_state

anthropic_to_openai-tool_indices_example :
    (n : ℕ) × ((tool_indices (run_stream (anthropic_to_openai typed) chunks new_state).0
        ≡ count_from 0 n)
      × ((run_stream (anthropic_to_openai typed) chunks new_state).1.tool_index_seq ≡ 0 + n))
anthropic_to_openai-tool_indices_example = anthropic_to_openai-tool_indices typed chunks new_state

-- A block that is stopped twice gives two tool calls.
two_calls : tool_indices (run_stream (anthropic_to_openai typed) chunks new_state).0 ≡ 0 ∷ 1 ∷ []
unfolding run_stream anthropic_to_openai tool_indices insert lookup
two_calls = refl

-- A codex upstream sends both events; an Anthropic client refuses the second message_start.
twice_started :
    read_all
      (run_stream
        (codex_to_anthropic typed)
        (codes "response.created" ∷ codes "response.in_progress" ∷ [])
        new_state).0
      new_reader
    ≡ none
unfolding run_stream codex_to_anthropic read_all
twice_started = refl
