-- ===== src/Translate/Openai/Build.antt =====
-- internal/translate/openai.go: buildOpenAIRequest and buildOpenAIResponse, before `json.Marshal`.
use simple_api.Base.{
  true, List, [], ◌∷◌, ◌++◌, map, if◌then◌else◌, ◌==◌, nat_eq, bool_eq, pair_eq, Text, codes,
  text_eq,
}
use simple_api.Base.Int64.{add64, positive}
use simple_api.Json.{Json}
use simple_api.Translate.Doc.{Doc, slice, map_of, set_if, set_some, null, bool, int, str}
use simple_api.Translate.Norm.{Content, Message, Tool, NormRequest, NormResponse}
use simple_api.Translate.Helpers.{
  concat_map, json_raw, Split, split_content, join_text, unmap_finish_reason, has_items, data_url,
  ensure_json_object,
}

abbrev pub user_block : Content → List Doc
user_block c =
    if c.type == codes "text"
    then map_of ((codes "type", str (codes "text")) ∷ (codes "text", str c.text) ∷ []) ∷ []
    else if c.type == codes "image"
    then map_of (
        (codes "type", str (codes "image_url"))
        ∷ (codes "image_url", map_of ((codes "url", str (data_url c)) ∷ []))
        ∷ [])
      ∷ []
    else []

-- `buildOpenAIUserContent`.
unfoldable pub build_user_content : List Content → Doc
unfolding concat_map
build_user_content [] = null
build_user_content (c ∷ []) = if c.type == codes "text" then str c.text else slice (user_block c)
build_user_content (c ∷ c' ∷ cs) =
    slice (user_block c ++ (user_block c' ++ concat_map user_block cs))

abbrev pub tool_message : Content → Doc
tool_message tr = map_of (
    (codes "role", str (codes "tool"))
    ∷ (codes "tool_call_id", str tr.tool_id)
    ∷ (codes "content", str tr.tool_result)
    ∷ [])

module _ (j : Json) where
  abbrev pub build_tool_call : Content → Doc
  unfolding ensure_json_object
  build_tool_call tu = map_of (
      (codes "id", str tu.tool_id)
      ∷ (codes "type", str (codes "function"))
      ∷ (
        codes "function",
        map_of (
            (codes "name", str tu.tool_name)
            ∷ (codes "arguments", str (ensure_json_object j tu.tool_input))
            ∷ []),
      )
      ∷ [])

  abbrev pub tool_calls : List Content → List (Text × Doc)
  unfolding ensure_json_object
  tool_calls uses = set_if (has_items uses) (codes "tool_calls") (slice (map build_tool_call uses))

  abbrev pub assistant_content : List Content → Doc
  unfolding join_text
  assistant_content [] = null
  assistant_content (c ∷ cs) = str (join_text (c ∷ cs))

  -- The message itself, behind its tool results.
  abbrev pub build_entry : Text → Split → Doc
  unfolding ensure_json_object build_user_content join_text
  build_entry role (texts, (results, uses)) =
      if role == codes "assistant"
      then map_of
          ((codes "role", str role) ∷ (codes "content", assistant_content texts) ∷ tool_calls uses)
      else map_of ((codes "role", str role) ∷ (codes "content", build_user_content texts) ∷ [])

  abbrev pub build_openai_messages : Message → List Doc
  unfolding split_content ensure_json_object build_user_content join_text
  build_openai_messages msg =
      let parts = split_content msg.content in
      map tool_message parts.1.0 ++ (build_entry msg.role parts ∷ [])

abbrev pub build_openai_tool : Tool → Doc
build_openai_tool t = map_of (
    (codes "type", str (codes "function"))
    ∷ (
      codes "function",
      map_of (
          (codes "name", str t.name)
          ∷ (codes "description", str t.description)
          ∷ (codes "parameters", json_raw t.input_schema)
          ∷ []),
    )
    ∷ [])

abbrev pub build_stop : List Text → List (Text × Doc)
build_stop [] = []
build_stop (s ∷ []) = (codes "stop", str s) ∷ []
build_stop (s ∷ s' ∷ ss) = (codes "stop", slice (map str (s ∷ s' ∷ ss))) ∷ []

-- The message of the system's content.
abbrev pub system_message : List Content → List Doc
unfolding join_text
system_message [] = []
system_message (c ∷ cs) =
    map_of ((codes "role", str (codes "system")) ∷ (codes "content", str (join_text (c ∷ cs))) ∷ [])
    ∷ []

-- What `msgs` holds in the end.
unfoldable pub openai_message_list : Json → NormRequest → List Doc
unfolding concat_map split_content ensure_json_object build_user_content join_text
openai_message_list j nr =
    system_message nr.system ++ concat_map (build_openai_messages j) nr.messages

-- `buildOpenAIRequest`, before `json.Marshal`.
unfoldable pub build_openai_request : Json → NormRequest → Doc
unfolding openai_message_list
build_openai_request j nr = map_of (
    (codes "model", str nr.model)
    ∷ (set_if (positive nr.max_tokens) (codes "max_tokens") (int nr.max_tokens)
        ++ (set_if nr.stream (codes "stream") (bool true)
            ++ (set_some nr.temperature (codes "temperature")
                ++ (set_some nr.top_p (codes "top_p")
                    ++ (build_stop nr.stop
                        ++ ((codes "messages", slice (openai_message_list j nr))
                            ∷ set_if (has_items nr.tools) (codes "tools")
                                (slice (map build_openai_tool nr.tools)))))))))

-- The texts and the tool uses of a response, which the codex builder reads alike.
abbrev pub text_part : Content → List Text
text_part c = if c.type == codes "text" then c.text ∷ [] else []

abbrev pub use_part : Content → List Content
use_part c =
    if c.type == codes "text" then [] else if c.type == codes "tool_use" then c ∷ [] else []

-- `strings.Join(parts, "")`.
unfoldable pub join_parts : List Text → Text
join_parts [] = []
join_parts (t ∷ ts) = t ++ join_parts ts

abbrev pub text_or_null : List Text → Doc
unfolding join_parts
text_or_null [] = null
text_or_null (t ∷ ts) = str (join_parts (t ∷ ts))

-- `buildOpenAIResponse`, before `json.Marshal`.
unfoldable pub build_openai_response : Json → NormResponse → Doc
unfolding concat_map ensure_json_object join_parts unmap_finish_reason
build_openai_response j nr =
    let msg = map_of (
      (codes "role", str (codes "assistant"))
      ∷ (codes "content", text_or_null (concat_map text_part nr.content))
      ∷ tool_calls j (concat_map use_part nr.content)) in
    let choice = map_of (
      (codes "index", int 0)
      ∷ (codes "message", msg)
      ∷ (codes "finish_reason", str (unmap_finish_reason nr.stop_reason))
      ∷ []) in
    map_of (
      (codes "id", str (codes "chatcmpl_simpleapi"))
      ∷ (codes "object", str (codes "chat.completion"))
      ∷ (codes "model", str nr.model)
      ∷ (codes "choices", slice (choice ∷ []))
      ∷ (
        codes "usage",
        map_of (
            (codes "prompt_tokens", int nr.input_tokens)
            ∷ (codes "completion_tokens", int nr.output_tokens)
            ∷ (codes "total_tokens", int (add64 nr.input_tokens nr.output_tokens))
            ∷ []),
      )
      ∷ [])
