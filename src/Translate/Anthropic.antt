-- ===== src/Translate/Anthropic.antt =====
-- internal/translate/anthropic.go: bodies of the Messages protocol.
use simple_api.Base.Int64.{positive}
use simple_api.Base.{
  true, not, ◌||◌, List, [], ◌∷◌, ◌++◌, map, if◌then◌else◌, ◌==◌, nat_eq, bool_eq, pair_eq, Text,
  codes, text_eq,
}
use simple_api.Json.{is_kind, Json, is_string}
use simple_api.Translate.Doc.{Doc, slice, map_of, set_if, set_some, null, bool, int, str}
use simple_api.Translate.Norm.{
  Content, no_content, text_content, image_content, tool_use, tool_result_content, Message, Tool,
  NormRequest, NormResponse,
}
use simple_api.Translate.Helpers.{
  concat_map, json_raw, has_items, text_at, to_string_slice, content_text, float_at, int_at,
  count_at,
}

-- `mapAnthropicStopReason` and `unmapAnthropicStopReason`, which are one function.
unfoldable pub anthropic_stop_reason : Text → Text
anthropic_stop_reason s =
    if s == codes "end_turn"
      || s == codes "max_tokens"
      || s == codes "stop_sequence"
      || s == codes "tool_use"
    then s
    else codes "end_turn"

module _ (j : Json) where
  abbrev pub anthropic_block : j.Node → List Content
  unfolding content_text
  anthropic_block b =
      let t = text_at j b (codes "type") in
      if t == codes "text"
      then text_content (text_at j b (codes "text")) ∷ []
      else if t == codes "image"
      then image_content (text_at j b (codes "source.media_type"))
          (text_at j b (codes "source.data"))
        ∷ []
      else if t == codes "tool_use"
      then tool_use (text_at j b (codes "id")) (text_at j b (codes "name"))
          (j.raw (j.sub b (codes "input")))
        ∷ []
      else if t == codes "tool_result"
      then record (tool_result_content (text_at j b (codes "tool_use_id"))
          (content_text j (j.sub b (codes "content")))) {
            is_error = j.bool_of (j.sub b (codes "is_error"));
          }
        ∷ []
      else if t == codes "thinking"
      then record no_content { type = codes "thinking"; text = text_at j b (codes "thinking") } ∷ []
      else []

  -- `parseAnthropicContent`.
  unfoldable pub parse_anthropic_content : j.Node → List Content
  unfolding concat_map
  parse_anthropic_content n =
      if not (j.exists n)
      then []
      else if is_kind (j.kind n) is_string
      then text_content (j.string n) ∷ []
      else concat_map anthropic_block (j.items n)

  abbrev pub anthropic_message : j.Node → Message
  unfolding parse_anthropic_content
  anthropic_message m = record {
    role = text_at j m (codes "role");
    content = parse_anthropic_content (j.sub m (codes "content"));
  }

  abbrev pub anthropic_tool : j.Node → Tool
  anthropic_tool t = record {
    name = text_at j t (codes "name");
    description = text_at j t (codes "description");
    input_schema = j.raw (j.sub t (codes "input_schema"));
  }

  -- `parseAnthropicRequest`.
  unfoldable pub parse_anthropic_request : Text → NormRequest
  unfolding parse_anthropic_content
  parse_anthropic_request body = record {
    model = j.string (j.get body (codes "model"));
    stream = j.bool_of (j.get body (codes "stream"));
    system = parse_anthropic_content (j.get body (codes "system"));
    messages = map anthropic_message (j.items (j.get body (codes "messages")));
    tools = map anthropic_tool (j.items (j.get body (codes "tools")));
    max_tokens = int_at j body (codes "max_tokens");
    temperature = float_at j body (codes "temperature");
    top_p = float_at j body (codes "top_p");
    stop = to_string_slice j (j.get body (codes "stop_sequences"));
  }

  -- `parseAnthropicResponse`.
  unfoldable pub parse_anthropic_response : Text → NormResponse
  unfolding parse_anthropic_content anthropic_stop_reason
  parse_anthropic_response body = record {
    model = j.string (j.get body (codes "model"));
    stop_reason = anthropic_stop_reason (j.string (j.get body (codes "stop_reason")));
    content = parse_anthropic_content (j.get body (codes "content"));
    input_tokens = count_at j (j.get body (codes "usage")) (codes "input_tokens");
    output_tokens = count_at j (j.get body (codes "usage")) (codes "output_tokens");
  }

abbrev pub text_doc : Text → Doc
text_doc t = map_of ((codes "type", str (codes "text")) ∷ (codes "text", str t) ∷ [])

abbrev pub image_doc : Content → Doc
image_doc c = map_of (
    (codes "type", str (codes "image"))
    ∷ (
      codes "source",
      map_of (
          (codes "type", str (codes "base64"))
          ∷ (codes "media_type", str c.image_media_type)
          ∷ (codes "data", str c.image_data)
          ∷ []),
    )
    ∷ [])

abbrev pub use_doc : Content → Doc
use_doc c = map_of (
    (codes "type", str (codes "tool_use"))
    ∷ (codes "id", str c.tool_id)
    ∷ (codes "name", str c.tool_name)
    ∷ (codes "input", json_raw c.tool_input)
    ∷ [])

abbrev pub result_doc : Content → Doc
result_doc c = map_of (
    (codes "type", str (codes "tool_result"))
    ∷ (codes "tool_use_id", str c.tool_id)
    ∷ (codes "content", str c.tool_result)
    ∷ (codes "is_error", bool c.is_error)
    ∷ [])

abbrev pub build_anthropic_block : Content → List Doc
build_anthropic_block c =
    if c.type == codes "text" || c.type == codes "thinking"
    then text_doc c.text ∷ []
    else if c.type == codes "image"
    then image_doc c ∷ []
    else if c.type == codes "tool_use"
    then use_doc c ∷ []
    else if c.type == codes "tool_result"
    then result_doc c ∷ []
    else []

-- `buildAnthropicContent`.
unfoldable pub build_anthropic_content : List Content → Doc
unfolding concat_map
build_anthropic_content cs = slice (concat_map build_anthropic_block cs)

abbrev pub build_anthropic_message : Message → Doc
unfolding build_anthropic_content
build_anthropic_message msg =
    map_of
      ((codes "role", str msg.role) ∷ (codes "content", build_anthropic_content msg.content) ∷ [])

abbrev pub build_anthropic_tool : Tool → Doc
build_anthropic_tool t = map_of (
    (codes "name", str t.name)
    ∷ (codes "description", str t.description)
    ∷ (codes "input_schema", json_raw t.input_schema)
    ∷ [])

-- `buildAnthropicRequest`, before `json.Marshal`.
unfoldable pub build_anthropic_request : NormRequest → Doc
unfolding build_anthropic_content
build_anthropic_request nr = map_of (
    (codes "model", str nr.model)
    ∷ (codes "max_tokens", int (if positive nr.max_tokens then nr.max_tokens else 1024))
    ∷ (set_if nr.stream (codes "stream") (bool true)
        ++ (set_some nr.temperature (codes "temperature")
            ++ (set_some nr.top_p (codes "top_p")
                ++ (set_if (has_items nr.stop) (codes "stop_sequences") (slice (map str nr.stop))
                    ++ (set_if (has_items nr.system) (codes "system")
                          (build_anthropic_content nr.system)
                        ++ ((codes "messages", slice (map build_anthropic_message nr.messages))
                            ∷ set_if (has_items nr.tools) (codes "tools")
                                (slice (map build_anthropic_tool nr.tools)))))))))

-- `buildAnthropicResponse`, before `json.Marshal`.
unfoldable pub build_anthropic_response : NormResponse → Doc
unfolding build_anthropic_content anthropic_stop_reason
build_anthropic_response nr = map_of (
    (codes "id", str (codes "msg_simpleapi"))
    ∷ (codes "type", str (codes "message"))
    ∷ (codes "role", str (codes "assistant"))
    ∷ (codes "model", str nr.model)
    ∷ (codes "content", build_anthropic_content nr.content)
    ∷ (codes "stop_reason", str (anthropic_stop_reason nr.stop_reason))
    ∷ (codes "stop_sequence", null)
    ∷ (
      codes "usage",
      map_of (
          (codes "input_tokens", int nr.input_tokens)
          ∷ (codes "output_tokens", int nr.output_tokens)
          ∷ []),
    )
    ∷ [])
