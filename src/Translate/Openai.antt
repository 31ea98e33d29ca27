-- ===== src/Translate/Openai.antt =====
-- internal/translate/openai.go: bodies of the Chat Completions protocol.
pub mod Build
use simple_api.Base.{
  not, List, [], ◌∷◌, ◌++◌, map, if◌then◌else◌, ◌==◌, nat_eq, bool_eq, pair_eq, Text, codes,
  text_eq,
}
use simple_api.Json.{is_kind, Json, is_string}
use simple_api.Translate.Doc.{raw}
use simple_api.Translate.Norm.{
  Content, text_content, image_content, tool_use, tool_result_content, Message, Tool, NormRequest,
  NormResponse,
}
use simple_api.Translate.Helpers.{
  concat_map, data_url_to_b64, data_url_media_type, map_finish_reason, text_at, to_string_slice,
  float_at, int_at, count_at,
}

module _ (j : Json) where
  abbrev pub openai_block : j.Node → List Content
  unfolding data_url_media_type data_url_to_b64
  openai_block b =
      let t = text_at j b (codes "type") in
      let url = text_at j b (codes "image_url.url") in
      if t == codes "text"
      then text_content (text_at j b (codes "text")) ∷ []
      else if t == codes "image_url"
      then image_content (data_url_media_type url) (data_url_to_b64 url) ∷ []
      else []

  -- `parseOpenAIContent`.
  unfoldable pub parse_openai_content : j.Node → List Content
  unfolding concat_map data_url_media_type data_url_to_b64
  parse_openai_content n =
      if not (j.exists n)
      then []
      else if is_kind (j.kind n) is_string
      then text_content (j.string n) ∷ []
      else concat_map openai_block (j.items n)

  abbrev pub openai_tool_call : j.Node → Content
  openai_tool_call tc =
      tool_use (text_at j tc (codes "id")) (text_at j tc (codes "function.name"))
        (text_at j tc (codes "function.arguments"))

  -- What a message adds to the messages.
  abbrev pub openai_messages : j.Node → List Message
  unfolding parse_openai_content
  openai_messages m =
      let role = text_at j m (codes "role") in
      if role == codes "tool"
      then record {
        role = codes "user";
        content =
            tool_result_content (text_at j m (codes "tool_call_id")) (text_at j m (codes "content"))
            ∷ [];
      }
        ∷ []
      else if role == codes "system"
      then []
      else record {
        role = role;
        content =
            parse_openai_content (j.sub m (codes "content"))
            ++ map openai_tool_call (j.items (j.sub m (codes "tool_calls")));
      }
        ∷ []

  -- What a message adds to the system's content.
  abbrev pub openai_system : j.Node → List Content
  unfolding parse_openai_content
  openai_system m =
      if text_at j m (codes "role") == codes "system"
      then parse_openai_content (j.sub m (codes "content"))
      else []

  abbrev pub openai_tool : j.Node → Tool
  openai_tool t = record {
    name = text_at j t (codes "function.name");
    description = text_at j t (codes "function.description");
    input_schema = j.raw (j.sub t (codes "function.parameters"));
  }

  abbrev pub openai_stop : j.Node → List Text
  openai_stop v =
      if not (j.exists v) then [] else if j.is_array v then to_string_slice j v else j.string v ∷ []

  -- `parseOpenAIRequest`.
  unfoldable pub parse_openai_request : Text → NormRequest
  unfolding concat_map parse_openai_content
  parse_openai_request body = record {
    model = j.string (j.get body (codes "model"));
    stream = j.bool_of (j.get body (codes "stream"));
    system = concat_map openai_system (j.items (j.get body (codes "messages")));
    messages = concat_map openai_messages (j.items (j.get body (codes "messages")));
    tools = map openai_tool (j.items (j.get body (codes "tools")));
    max_tokens = int_at j body (codes "max_tokens");
    temperature = float_at j body (codes "temperature");
    top_p = float_at j body (codes "top_p");
    stop = openai_stop (j.get body (codes "stop"));
  }

  abbrev pub unless_empty : Text → List Content
  unless_empty t = if t == [] then [] else text_content t ∷ []

  -- `parseOpenAIResponse`.
  unfoldable pub parse_openai_response : Text → NormResponse
  unfolding map_finish_reason
  parse_openai_response body =
      let choice = j.get body (codes "choices.0") in
      let msg = j.sub choice (codes "message") in
      record {
        model = j.string (j.get body (codes "model"));
        stop_reason = map_finish_reason (text_at j choice (codes "finish_reason"));
        content =
            unless_empty (text_at j msg (codes "content"))
            ++ map openai_tool_call (j.items (j.sub msg (codes "tool_calls")));
        input_tokens = count_at j (j.get body (codes "usage")) (codes "prompt_tokens");
        output_tokens = count_at j (j.get body (codes "usage")) (codes "completion_tokens");
      }
