-- ===== src/Translate/Codex.antt =====
-- internal/translate/codex.go: bodies of the Responses protocol.
pub mod Build
use simple_api.Base.{
  not, ◌||◌, List, [], ◌∷◌, map, if◌then◌else◌, ◌==◌, nat_eq, bool_eq, pair_eq, Text, codes,
  text_eq,
}
use simple_api.Json.{Json}
use simple_api.Translate.Doc.{raw}
use simple_api.Translate.Norm.{
  Content, text_content, image_content, tool_use, tool_result_content, Message, Tool, NormRequest,
  NormResponse,
}
use simple_api.Translate.Helpers.{
  concat_map, data_url_to_b64, data_url_media_type, text_at, float_at, int_at, count_at,
}
use simple_api.Translate.Openai.{unless_empty}

-- `mapCodexStatus` and `unmapCodexStatus`.
unfoldable pub map_codex_status : Text → Text
map_codex_status s =
    if s == codes "completed"
    then codes "end_turn"
    else if s == codes "incomplete"
    then codes "max_tokens"
    else codes "end_turn"

unfoldable pub unmap_codex_status : Text → Text
unmap_codex_status s = if s == codes "max_tokens" then codes "incomplete" else codes "completed"

module _ (j : Json) where
  abbrev pub codex_block : j.Node → List Content
  unfolding data_url_media_type data_url_to_b64
  codex_block b =
      let t = text_at j b (codes "type") in
      let url = text_at j b (codes "image_url") in
      if t == codes "input_text" || t == codes "output_text" || t == codes "text"
      then text_content (text_at j b (codes "text")) ∷ []
      else if t == codes "input_image" || t == codes "image"
      then image_content (data_url_media_type url) (data_url_to_b64 url) ∷ []
      else []

  -- `parseCodexContent`, which does not use the role.
  unfoldable pub parse_codex_content : j.Node → List Content
  unfolding concat_map data_url_media_type data_url_to_b64
  parse_codex_content n = if not (j.exists n) then [] else concat_map codex_block (j.items n)

  abbrev pub codex_call : j.Node → Content
  codex_call n =
      tool_use (text_at j n (codes "call_id")) (text_at j n (codes "name"))
        (text_at j n (codes "arguments"))

  -- What an item of the input adds to the messages.
  abbrev pub codex_messages : j.Node → List Message
  unfolding parse_codex_content
  codex_messages n =
      let t = text_at j n (codes "type") in
      let role = text_at j n (codes "role") in
      if t == codes "message"
      then record {
        role = if role == [] then codes "user" else role;
        content = parse_codex_content (j.sub n (codes "content"));
      }
        ∷ []
      else if t == codes "function_call"
      then record { role = codes "assistant"; content = codex_call n ∷ [] } ∷ []
      else if t == codes "function_call_output"
      then record {
        role = codes "user";
        content =
            tool_result_content (text_at j n (codes "call_id")) (text_at j n (codes "output")) ∷ [];
      }
        ∷ []
      else []

  abbrev pub codex_tool : j.Node → Tool
  codex_tool t = record {
    name = text_at j t (codes "name");
    description = text_at j t (codes "description");
    input_schema = j.raw (j.sub t (codes "parameters"));
  }

  -- `parseCodexRequest`.
  unfoldable pub parse_codex_request : Text → NormRequest
  unfolding concat_map parse_codex_content
  parse_codex_request body = record {
    model = j.string (j.get body (codes "model"));
    stream = j.bool_of (j.get body (codes "stream"));
    system = unless_empty j (j.string (j.get body (codes "instructions")));
    messages = concat_map codex_messages (j.items (j.get body (codes "input")));
    tools = map codex_tool (j.items (j.get body (codes "tools")));
    max_tokens = int_at j body (codes "max_output_tokens");
    temperature = float_at j body (codes "temperature");
    top_p = float_at j body (codes "top_p");
    stop = [];
  }

  abbrev pub output_text : j.Node → List Content
  output_text c =
      if text_at j c (codes "type") == codes "output_text" || j.exists (j.sub c (codes "text"))
      then text_content (text_at j c (codes "text")) ∷ []
      else []

  -- What an item of the output adds to the content.
  abbrev pub output_item : j.Node → List Content
  unfolding concat_map
  output_item n =
      let t = text_at j n (codes "type") in
      if t == codes "message"
      then concat_map output_text (j.items (j.sub n (codes "content")))
      else if t == codes "function_call"
      then codex_call n ∷ []
      else []

  -- `parseCodexResponse`.
  unfoldable pub parse_codex_response : Text → NormResponse
  unfolding concat_map map_codex_status
  parse_codex_response body = record {
    model = j.string (j.get body (codes "model"));
    stop_reason = map_codex_status (j.string (j.get body (codes "status")));
    content = concat_map output_item (j.items (j.get body (codes "output")));
    input_tokens = count_at j (j.get body (codes "usage")) (codes "input_tokens");
    output_tokens = count_at j (j.get body (codes "usage")) (codes "output_tokens");
  }
