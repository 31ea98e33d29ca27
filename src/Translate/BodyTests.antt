-- ===== src/Translate/BodyTests.antt =====
-- Bodies of one response and of one request.
use simple_api.Translate.Doc.{Doc, map_of, marshals, bytes_of, null, str}
use simple_api.Translate.Messages.Kept.{tools_kept, only_results-null}
use simple_api.Translate.Messages.{openai_result, codex_result, codex_call_of}
use simple_api.Translate.RoundTrip.Openai.{build_openai_response-parse}
use simple_api.Translate.RoundTrip.Request.{clean_message, build_anthropic_request-parse}
use simple_api.Translate.RoundTrip.Codex.{build_codex_response-parse}
use simple_api.Json.Plain.{plain}
use simple_api.Translate.Openai.{parse_openai_response}
use simple_api.Translate.Openai.Build.{
  tool_message, build_openai_messages, openai_message_list, build_openai_request, join_parts,
  build_openai_response,
}
use simple_api.Translate.Codex.{parse_codex_response}
use simple_api.Translate.Codex.Build.{codex_input, build_codex_request, build_codex_response}
use simple_api.Translate.Marshals.{takes_input}
use simple_api.Translate.Pairs.{
  Printer, openai_to_anthropic_response, anthropic_to_openai_response, codex_to_anthropic_response,
  anthropic_to_codex_response, codex_to_openai_response, openai_to_codex_response,
}
use simple_api.Translate.Bodies.{responses-bytes_of, requests-marshals}
use simple_api.Base.{
  ◌≡◌, refl, true, false, some, [], ◌∷◌, map, arith, if◌then◌else◌, ◌==◌, nat_eq, bool_eq, pair_eq,
  all, codes, text_eq,
}
use simple_api.Translate.Norm.{
  Content, text_content, tool_use, tool_result_content, NormRequest, new_request, NormResponse,
}
use simple_api.Base.Spaces.{trim_space}
use simple_api.Translate.Helpers.{concat_map, ensure_json_object}
use simple_api.Translate.Anthropic.{
  anthropic_stop_reason, parse_anthropic_request, parse_anthropic_response, build_anthropic_content,
  build_anthropic_request, build_anthropic_response,
}
use simple_api.Translate.Views.{first_key, field_of}
use simple_api.Translate.Printed.{printed, seen, seen-Reads}
use simple_api.Translate.RoundTrip.Anthropic.{clean_block, build_anthropic_response-parse}

abbrev call : Content
call = tool_use (codes "c1") (codes "run") (codes "{\"n\":1}")

abbrev response : NormResponse
response = record {
  model = codes "m";
  stop_reason = codes "tool_use";
  content = text_content (codes "hi") ∷ call ∷ [];
  input_tokens = 3;
  output_tokens = 4;
}

build_anthropic_response-parse_example :
    parse_anthropic_response (printed (build_anthropic_response response)) [] ≡ record {
      model = codes "m";
      stop_reason = anthropic_stop_reason (codes "tool_use");
      content =
          concat_map (clean_block (seen (build_anthropic_response response))) response.content;
      input_tokens = 3;
      output_tokens = 4;
    }
build_anthropic_response-parse_example =
    build_anthropic_response-parse (seen (build_anthropic_response response)) response []
      (seen-Reads (build_anthropic_response response)) (omega arith) (omega arith)

abbrev openai_doc : Doc
openai_doc = build_openai_response plain response

abbrev codex_doc : Doc
codex_doc = build_codex_response plain response

build_openai_response-parse_example :
    parse_openai_response (printed (build_openai_response plain response)) [] ≡ record {
      model = codes "m";
      stop_reason = codes "tool_use";
      content = text_content (codes "hi") ∷ call ∷ [];
      input_tokens = 3;
      output_tokens = 4;
    }
unfolding build_openai_response ensure_json_object concat_map join_parts trim_space first_key
    field_of
build_openai_response-parse_example =
    build_openai_response-parse (seen openai_doc) response [] (seen-Reads openai_doc) (omega arith)
      (omega arith)

build_codex_response-parse_example :
    parse_codex_response (printed (build_codex_response plain response)) [] ≡ record {
      model = codes "m";
      stop_reason = codes "end_turn";
      content = text_content (codes "hi") ∷ call ∷ [];
      input_tokens = 3;
      output_tokens = 4;
    }
unfolding build_codex_response ensure_json_object concat_map join_parts trim_space first_key
    field_of
build_codex_response-parse_example =
    build_codex_response-parse (seen codex_doc) response [] (seen-Reads codex_doc) (omega arith)
      (omega arith)

-- Of raw messages, `json.Marshal` takes the empty object only.
abbrev strict : Printer
strict = record {
  anthropic_text = λ e. [];
  openai_text = λ e. [];
  codex_text = λ e. [];
  marshal = record { takes = λ t. t == codes "{}"; text = λ d. codes "body" };
}

responses-bytes_of_example :
    ((openai_to_anthropic_response plain strict (codes "b") ≡ (
        if all (takes_input strict.marshal.takes) (parse_openai_response plain (codes "b")).content
        then codes "body"
        else []))
      × (codex_to_anthropic_response plain strict (codes "b") ≡ (
          if all (takes_input strict.marshal.takes) (parse_codex_response plain (codes "b")).content
          then codes "body"
          else [])))
    × (((anthropic_to_openai_response plain strict (codes "b") ≡ codes "body")
          × (codex_to_openai_response plain strict (codes "b") ≡ codes "body"))
        × ((anthropic_to_codex_response plain strict (codes "b") ≡ codes "body")
            × (openai_to_codex_response plain strict (codes "b") ≡ codes "body")))
responses-bytes_of_example = responses-bytes_of plain strict (codes "b")

-- A response whose tool call is cut off at the token limit becomes an empty body.
abbrev cut : NormResponse
cut = record response { content = tool_use (codes "c1") (codes "run") (codes "{\"n\":") ∷ [] }

cut_off : bytes_of strict.marshal (build_anthropic_response cut) ≡ []
unfolding bytes_of build_anthropic_response build_anthropic_content concat_map
cut_off = refl

abbrev request : NormRequest
request = record (new_request (codes "m") false) {
  messages =
      record { role = codes "user"; content = tool_result_content (codes "c1") (codes "ok") ∷ [] }
      ∷ record { role = codes "assistant"; content = call ∷ [] }
      ∷ [];
}

requests-marshals_example :
    (marshals strict.marshal.takes (build_openai_request plain request) ≡ true)
    × ((marshals strict.marshal.takes (build_codex_request plain request) ≡ true)
        × (marshals strict.marshal.takes (build_anthropic_request request) ≡ false))
requests-marshals_example = requests-marshals strict.marshal.takes plain request

tools_kept_example :
    (concat_map openai_result (openai_message_list plain request) ≡ (codes "c1", codes "ok") ∷ [])
    × ((concat_map codex_result (codex_input plain request) ≡ (codes "c1", codes "ok") ∷ [])
        × (concat_map codex_call_of (codex_input plain request)
            ≡ (codes "c1", (codes "run", codes "{\"n\":1}")) ∷ []))
unfolding concat_map ensure_json_object trim_space
tools_kept_example = tools_kept plain request

only_results-null_example :
    build_openai_messages plain
      (record { role = codes "user"; content = tool_result_content (codes "c1") (codes "ok") ∷ [] })
    ≡ tool_message (tool_result_content (codes "c1") (codes "ok"))
      ∷ (map_of ((codes "role", str (codes "user")) ∷ (codes "content", null) ∷ []) ∷ [])
only_results-null_example =
    only_results-null plain (codes "user") (tool_result_content (codes "c1") (codes "ok") ∷ []) refl
      (refl, tt)

-- A request with every part.
abbrev full_request : NormRequest
full_request = record request {
  stream = true;
  system = text_content (codes "be brief") ∷ [];
  tools = record { name = codes "run"; description = []; input_schema = codes "{}" } ∷ [];
  temperature = some (some (codes "0.5"));
  stop = codes "end" ∷ [];
}

build_anthropic_request-parse_example :
    parse_anthropic_request (printed (build_anthropic_request full_request)) []
    ≡ record full_request {
      messages = map (clean_message (seen (build_anthropic_request full_request))) request.messages;
      max_tokens = 1024;
    }
unfolding concat_map
build_anthropic_request-parse_example =
    build_anthropic_request-parse (seen (build_anthropic_request full_request)) full_request []
      (seen-Reads (build_anthropic_request full_request)) refl refl (omega arith)
