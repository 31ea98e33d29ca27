-- ===== src/Translate/Codex/Build.antt =====
-- internal/translate/codex.go: buildCodexRequest and buildCodexResponse, before `json.Marshal`.
use simple_api.Base.{
  true, ◌||◌, List, [], ◌∷◌, ◌++◌, map, if◌then◌else◌, ◌==◌, nat_eq, bool_eq, pair_eq, Text, codes,
  text_eq,
}
use simple_api.Base.Int64.{positive}
use simple_api.Json.{Json}
use simple_api.Translate.Doc.{Doc, slice, map_of, set_if, set_some, bool, int, str}
use simple_api.Translate.Norm.{Content, Message, Tool, NormRequest, NormResponse}
use simple_api.Translate.Helpers.{
  concat_map, json_raw, split_content, join_text, has_items, data_url, ensure_json_object,
}
use simple_api.Translate.Openai.Build.{text_part, use_part, join_parts}
use simple_api.Translate.Codex.{unmap_codex_status}

module _ (j : Json) where
  abbrev pub function_call : Content → Doc
  unfolding ensure_json_object
  function_call tu = map_of (
      (codes "type", str (codes "function_call"))
      ∷ (codes "call_id", str tu.tool_id)
      ∷ (codes "name", str tu.tool_name)
      ∷ (codes "arguments", str (ensure_json_object j tu.tool_input))
      ∷ [])

  abbrev pub function_call_output : Content → Doc
  function_call_output tr = map_of (
      (codes "type", str (codes "function_call_output"))
      ∷ (codes "call_id", str tr.tool_id)
      ∷ (codes "output", str tr.tool_result)
      ∷ [])

  abbrev pub input_block : Text → Content → List Doc
  input_block kind c =
      if c.type == codes "text" || c.type == codes "thinking"
      then map_of ((codes "type", str kind) ∷ (codes "text", str c.text) ∷ []) ∷ []
      else if c.type == codes "image"
      then map_of
          ((codes "type", str (codes "input_image")) ∷ (codes "image_url", str (data_url c)) ∷ [])
        ∷ []
      else []

  abbrev pub text_kind : Text → Text
  text_kind role = if role == codes "assistant" then codes "output_text" else codes "input_text"

  -- The item for the text and the images of a message.
  abbrev pub message_item : Text → List Content → List Doc
  unfolding concat_map
  message_item role [] = []
  message_item role (c ∷ cs) =
      map_of (
        (codes "type", str (codes "message"))
        ∷ (codes "role", str (if role == [] then codes "user" else role))
        ∷ (codes "content", slice (concat_map (input_block (text_kind role)) (c ∷ cs)))
        ∷ [])
      ∷ []

  abbrev pub input_items : Message → List Doc
  unfolding split_content concat_map ensure_json_object
  input_items msg =
      let parts = split_content msg.content in
      message_item msg.role parts.0
      ++ (map function_call parts.1.1 ++ map function_call_output parts.1.0)

  abbrev pub build_codex_tool : Tool → Doc
  build_codex_tool t = map_of (
      (codes "type", str (codes "function"))
      ∷ (codes "name", str t.name)
      ∷ (codes "description", str t.description)
      ∷ (codes "parameters", json_raw t.input_schema)
      ∷ [])

  -- What `input` holds in the end.
  unfoldable pub codex_input : NormRequest → List Doc
  unfolding split_content concat_map ensure_json_object
  codex_input nr = concat_map input_items nr.messages

  abbrev pub instructions : List Content → List (Text × Doc)
  unfolding join_text
  instructions cs = set_if (has_items cs) (codes "instructions") (str (join_text cs))

  -- `buildCodexRequest`, before `json.Marshal`.
  unfoldable pub build_codex_request : NormRequest → Doc
  unfolding codex_input join_text
  build_codex_request nr = map_of (
      (codes "model", str nr.model)
      ∷ (set_if (positive nr.max_tokens) (codes "max_output_tokens") (int nr.max_tokens)
          ++ (set_if nr.stream (codes "stream") (bool true)
              ++ (set_some nr.temperature (codes "temperature")
                  ++ (set_some nr.top_p (codes "top_p")
                      ++ (instructions nr.system
                          ++ ((codes "input", slice (codex_input nr))
                              ∷ set_if (has_items nr.tools) (codes "tools")
                                  (slice (map build_codex_tool nr.tools)))))))))

  abbrev pub output_message : List Text → List Doc
  unfolding join_parts
  output_message [] = []
  output_message (t ∷ ts) =
      map_of (
        (codes "type", str (codes "message"))
        ∷ (codes "role", str (codes "assistant"))
        ∷ (
          codes "content",
          slice (
              map_of (
                (codes "type", str (codes "output_text"))
                ∷ (codes "text", str (join_parts (t ∷ ts)))
                ∷ [])
              ∷ []),
        )
        ∷ [])
      ∷ []

  -- `buildCodexResponse`, before `json.Marshal`.
  unfoldable pub build_codex_response : NormResponse → Doc
  unfolding concat_map ensure_json_object join_parts unmap_codex_status
  build_codex_response nr =
      let output =
        output_message (concat_map text_part nr.content)
        ++ map function_call (concat_map use_part nr.content) in
      map_of (
        (codes "id", str (codes "resp_simpleapi"))
        ∷ (codes "object", str (codes "response"))
        ∷ (codes "model", str nr.model)
        ∷ (codes "status", str (unmap_codex_status nr.stop_reason))
        ∷ (codes "output", slice output)
        ∷ (
          codes "usage",
          map_of (
              (codes "input_tokens", int nr.input_tokens)
              ∷ (codes "output_tokens", int nr.output_tokens)
              ∷ []),
        )
        ∷ [])
