-- ===== src/Translate/RoundTrip/Request.antt =====
-- parseAnthropicRequest on what buildAnthropicRequest prints.
use simple_api.Base.Int64.{modulus, positive}
use simple_api.Json.{Json}
use simple_api.Translate.Rounds.{map-rounds, items_slice}
use simple_api.Translate.RoundTrip.Anthropic.{clean_block, content_lem}
use simple_api.Base.{
  ℕ, ◌<◌, ◌≡◌, refl, ap, ◌∙◌, Bool, true, false, Option, none, some, List, [], ◌∷◌, map, arith,
  if◌then◌else◌, Text, codes,
}
use simple_api.Translate.Doc.{docs_of, slice, bool, int, float, str}
use simple_api.Translate.Norm.{Content, Message, Tool, NormRequest}
use simple_api.Translate.Helpers.{concat_map, raw_text, json_raw, has_items, to_string_slice}
use simple_api.Translate.Views.{first_key, field_of, Printing, Views, sub_at, text_view, Reads}
use simple_api.Translate.Anthropic.{
  parse_anthropic_content, anthropic_message, anthropic_tool, parse_anthropic_request,
  build_anthropic_content, build_anthropic_message, build_anthropic_tool, build_anthropic_request,
}
use simple_api.Translate.RoundTrip.Fields.{when, float_or, field_lem}

module _ {j : Json} {p : Printing} (v : Views j p) where
  abbrev pub clean_message : Message → Message
  unfolding concat_map
  clean_message m = record { role = p.clean m.role; content = concat_map (clean_block v) m.content }

  abbrev pub clean_tool : Tool → Tool
  clean_tool t = record {
    name = p.clean t.name;
    description = p.clean t.description;
    input_schema = p.compact (raw_text t.input_schema);
  }

  message_lem :
      (m : Message)
      → anthropic_message j (v.view (some (build_anthropic_message m))) ≡ clean_message m
  unfolding first_key field_of build_anthropic_content parse_anthropic_content
  message_lem m =
      let d = some (build_anthropic_message m) in
      λ i. record {
        role = text_view v d (codes "role") m.role refl refl refl i;
        content =
            (ap (parse_anthropic_content j) (
                  sub_at v d (some (build_anthropic_content m.content)) (codes "content") refl refl
                    refl)
                ∙ content_lem v m.content)
              i;
      }

  tool_lem : (t : Tool) → anthropic_tool j (v.view (some (build_anthropic_tool t))) ≡ clean_tool t
  unfolding first_key field_of
  tool_lem t =
      let d = some (build_anthropic_tool t) in
      λ i. record {
        name = text_view v d (codes "name") t.name refl refl refl i;
        description = text_view v d (codes "description") t.description refl refl refl i;
        input_schema =
            (ap j.raw (
                  sub_at v d (some (json_raw t.input_schema)) (codes "input_schema") refl refl refl)
                ∙ v.raw_raw (raw_text t.input_schema))
              i;
      }

  stream_lem : (b : Bool) → j.bool_of (v.view (when b (bool true) none)) ≡ b
  stream_lem true = v.bool_bool true
  stream_lem false = v.bool_none

  -- No infinity, and a text that a number has.
  abbrev pub is_number_or_none : Option (Option Text) → Bool
  is_number_or_none none = true
  is_number_or_none (some none) = false
  is_number_or_none (some (some t)) = p.is_number t

  float_lem :
      (o : Option (Option Text))
      → is_number_or_none o ≡ true
      → (if j.exists (v.view (float_or true o none))
          then some (j.float_of (v.view (float_or true o none)))
          else none)
        ≡ o
  float_lem none h = rw (v.exists_view none) refl
  float_lem (some none) h = cc
  float_lem (some (some t)) h =
      rw (v.exists_view (some (float (some t)))) (ap (λ x. some x) (v.float_float t h))

  limit_lem : (n : ℕ) → n < modulus → (if positive n then n else 1024) < modulus
  limit_lem n h = ground arith

  stop_lem :
      (ss : List Text)
      → to_string_slice j (v.view (when (has_items ss) (slice (map str ss)) none)) ≡ map p.clean ss
  stop_lem [] = rw v.is_array_none refl
  stop_lem (s ∷ ss) = rw (v.is_array_array (docs_of (map str (s ∷ ss)))) (
      ap (λ t. map j.string t) (items_slice v (map str (s ∷ ss)))
      ∙ map-rounds j.string (λ d. v.view (some d)) str p.clean v.string_str (s ∷ ss))

  system_lem :
      (cs : List Content)
      → parse_anthropic_content j (v.view (when (has_items cs) (build_anthropic_content cs) none))
        ≡ concat_map (clean_block v) cs
  unfolding concat_map parse_anthropic_content
  system_lem [] = rw (v.exists_view none) refl
  system_lem (c ∷ cs) = content_lem v (c ∷ cs)

  tools_lem :
      (ts : List Tool)
      → map
          (anthropic_tool j)
          (j.items (v.view (when (has_items ts) (slice (map build_anthropic_tool ts)) none)))
        ≡ map clean_tool ts
  tools_lem [] = rw v.items_none refl
  tools_lem (t ∷ ts) =
      ap (λ n. map (anthropic_tool j) n) (items_slice v (map build_anthropic_tool (t ∷ ts)))
      ∙ map-rounds (anthropic_tool j) (λ d. v.view (some d)) build_anthropic_tool clean_tool
          tool_lem (t ∷ ts)

  messages_lem :
      (ms : List Message)
      → map (anthropic_message j) (j.items (v.view (some (slice (map build_anthropic_message ms)))))
        ≡ map clean_message ms
  messages_lem ms =
      ap (λ n. map (anthropic_message j) n) (items_slice v (map build_anthropic_message ms))
      ∙ map-rounds (anthropic_message j) (λ d. v.view (some d)) build_anthropic_message
          clean_message message_lem ms

  -- On a body that gjson reads as the request which buildAnthropicRequest makes of a neutral one whose
  -- temperature and top_p are numbers of gjson's, and whose maximum of tokens is below 2 ^ 64:
  -- parseAnthropicRequest gives its model, stream flag, numbers and stop sequences, and its tools,
  -- system and messages with their blocks in order. A thinking block comes back as a text, a block of
  -- an unknown type is dropped, a tool's schema and input come back as what `json.Marshal` prints of
  -- the raw message that `jsonRaw` gives, a maximum that is not positive becomes 1024, and bytes that
  -- are not UTF-8 are replaced.
  pub build_anthropic_request-parse :
      (nr : NormRequest) (body : Text)
      → Reads v body (build_anthropic_request nr)
      → is_number_or_none nr.temperature ≡ true
      → is_number_or_none nr.top_p ≡ true
      → nr.max_tokens < modulus
      → parse_anthropic_request j body ≡ record {
        model = p.clean nr.model;
        stream = nr.stream;
        system = concat_map (clean_block v) nr.system;
        messages = map clean_message nr.messages;
        tools = map clean_tool nr.tools;
        max_tokens = if positive nr.max_tokens then nr.max_tokens else 1024;
        temperature = nr.temperature;
        top_p = nr.top_p;
        stop = map p.clean nr.stop;
      }
  unfolding parse_anthropic_request build_anthropic_request first_key field_of
  build_anthropic_request-parse nr body reads t_ok p_ok max_ok =
      let limit = if positive nr.max_tokens then nr.max_tokens else 1024 in
      let max_at = reads.at_path (codes "max_tokens") refl refl in
      let stream_at =
        reads.at_path (codes "stream") refl refl ∙ ap v.view (field_lem (codes "stream") nr) in
      let temperature_at =
        reads.at_path (codes "temperature") refl refl
        ∙ ap v.view (field_lem (codes "temperature") nr) in
      let top_p_at =
        reads.at_path (codes "top_p") refl refl ∙ ap v.view (field_lem (codes "top_p") nr) in
      let stop_at =
        reads.at_path (codes "stop_sequences") refl refl
        ∙ ap v.view (field_lem (codes "stop_sequences") nr) in
      let system_at =
        reads.at_path (codes "system") refl refl ∙ ap v.view (field_lem (codes "system") nr) in
      let messages_at =
        reads.at_path (codes "messages") refl refl ∙ ap v.view (field_lem (codes "messages") nr) in
      let tools_at =
        reads.at_path (codes "tools") refl refl ∙ ap v.view (field_lem (codes "tools") nr) in
      λ i. record {
        model = (ap j.string (reads.at_path (codes "model") refl refl) ∙ v.string_str nr.model) i;
        stream = (ap j.bool_of stream_at ∙ stream_lem nr.stream) i;
        system = (ap (parse_anthropic_content j) system_at ∙ system_lem nr.system) i;
        messages =
            (ap (λ n. map (anthropic_message j) (j.items n)) messages_at ∙ messages_lem nr.messages)
              i;
        tools = (ap (λ n. map (anthropic_tool j) (j.items n)) tools_at ∙ tools_lem nr.tools) i;
        max_tokens =
            (ap (λ n. if j.exists n then j.int_of n else 0) max_at
                ∙ (ap (λ b. if b then j.int_of (v.view (some (int limit))) else 0)
                      (v.exists_view (some (int limit)))
                    ∙ v.int_int limit (limit_lem nr.max_tokens max_ok)))
              i;
        temperature =
            (ap (λ n. if j.exists n then some (j.float_of n) else none) temperature_at
                ∙ float_lem nr.temperature t_ok)
              i;
        top_p =
            (ap (λ n. if j.exists n then some (j.float_of n) else none) top_p_at
                ∙ float_lem nr.top_p p_ok)
              i;
        stop = (ap (to_string_slice j) stop_at ∙ stop_lem nr.stop) i;
      }
