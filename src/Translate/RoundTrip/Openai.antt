-- ===== src/Translate/RoundTrip/Openai.antt =====
-- parseOpenAIResponse on what buildOpenAIResponse prints.
use simple_api.Base.Int64.{modulus}
use simple_api.Base.{
  ◌<◌, ◌≡◌, refl, sym, ap, ◌∙◌, inl, inr, ◌||◌, none, some, List, [], ◌∷◌, ◌++◌, map, if◌then◌else◌,
  Bool-cases, ◌==◌, eq_of_==, nat_eq, bool_eq, pair_eq, Text, codes, text_eq,
}
use simple_api.Json.{Json}
use simple_api.Translate.Doc.{Doc, slice, map_of, str}
use simple_api.Translate.Norm.{Content, text_content, NormResponse}
use simple_api.Translate.Helpers.{
  concat_map, map_finish_reason, unmap_finish_reason, ensure_json_object, text_at, count_at,
}
use simple_api.Translate.Views.{first_key, field_of, Printing, Views, sub_at, text_view, Reads}
use simple_api.Translate.Rounds.{map-rounds, response_ext, items_slice, count_view, clean_call}
use simple_api.Translate.Openai.{openai_tool_call, unless_empty, parse_openai_response}
use simple_api.Translate.Openai.Build.{
  build_tool_call, tool_calls, text_part, use_part, join_parts, text_or_null, build_openai_response,
}

-- What is left of a stop reason on the way through `finish_reason`.
abbrev pub finish_of : Text → Text
finish_of s = if s == codes "max_tokens" || s == codes "tool_use" then s else codes "end_turn"

module _ {j : Json} {p : Printing} (v : Views j p) where
  abbrev pub clean_text : Text → List Content
  clean_text t = if t == [] then [] else text_content (p.clean t) ∷ []

  call_lem :
      (c : Content) → openai_tool_call j (v.view (some (build_tool_call j c))) ≡ (clean_call j p) c
  unfolding first_key field_of ensure_json_object
  call_lem c =
      let d = some (build_tool_call j c) in
      rw
        (
          text_view v d (codes "id") c.tool_id refl refl refl,
          text_view v d (codes "function.name") c.tool_name refl refl refl,
          text_view v d (codes "function.arguments") (ensure_json_object j c.tool_input) refl refl
              refl,
        )
        refl

  text_lem : (ts : List Text) → j.string (v.view (some (text_or_null ts))) ≡ p.clean (join_parts ts)
  unfolding join_parts
  text_lem [] = v.string_null ∙ sym (p.clean_ascii [] refl)
  text_lem (t ∷ ts) = v.string_str (join_parts (t ∷ ts))

  message_doc : List Text → List Content → Doc
  unfolding join_parts ensure_json_object
  message_doc ts uses = map_of (
      (codes "role", str (codes "assistant"))
      ∷ (codes "content", text_or_null ts)
      ∷ tool_calls j uses)

  calls_lem :
      (ts : List Text) (uses : List Content)
      → map
          (openai_tool_call j)
          (j.items (j.sub (v.view (some (message_doc ts uses))) (codes "tool_calls")))
        ≡ map (clean_call j p) uses
  unfolding message_doc first_key field_of
  calls_lem ts [] =
      rw
        (sub_at v (some (message_doc ts [])) none (codes "tool_calls") refl refl refl, v.items_none)
        refl
  calls_lem ts (c ∷ cs) =
      let ds = map (build_tool_call j) (c ∷ cs) in
      ap (λ t. map (openai_tool_call j) (j.items t))
        (sub_at v (some (message_doc ts (c ∷ cs))) (some (slice ds)) (codes "tool_calls") refl refl
          refl)
      ∙ (ap (λ t. map (openai_tool_call j) t) (items_slice v ds)
          ∙ map-rounds (openai_tool_call j) (λ d. v.view (some d)) (build_tool_call j)
              (clean_call j p) call_lem (c ∷ cs))

  unless_lem : (t : Text) → unless_empty j (p.clean t) ≡ clean_text t
  unless_lem t = rw (p.clean_empty t) refl

  content_lem :
      (ts : List Text) (uses : List Content)
      → unless_empty j (text_at j (v.view (some (message_doc ts uses))) (codes "content"))
          ++ map
              (openai_tool_call j)
              (j.items (j.sub (v.view (some (message_doc ts uses))) (codes "tool_calls")))
        ≡ clean_text (join_parts ts) ++ map (clean_call j p) uses
  unfolding message_doc first_key field_of
  content_lem ts uses = rw (calls_lem ts uses) (
      ap (λ t. unless_empty j t ++ map (clean_call j p) uses)
        (ap j.string (
            sub_at v (some (message_doc ts uses)) (some (text_or_null ts)) (codes "content") refl
              refl refl)
          ∙ text_lem ts)
      ∙ ap (λ t. t ++ map (clean_call j p) uses) (unless_lem (join_parts ts)))

  finish_lem : (s : Text) → map_finish_reason (p.clean (unmap_finish_reason s)) ≡ finish_of s
  unfolding map_finish_reason unmap_finish_reason
  finish_lem s = elim (Bool-cases (s == codes "max_tokens")) [
    | inl e ↦ rw (eq_of_== s (codes "max_tokens") e, p.clean_ascii (codes "length") refl) refl
    | inr a ↦ elim (Bool-cases (s == codes "tool_use")) [
      | inl e ↦ rw (eq_of_== s (codes "tool_use") e, p.clean_ascii (codes "tool_calls") refl) refl
      | inr b ↦ elim (Bool-cases (s == codes "end_turn" || s == codes "stop_sequence")) [
        | inl e ↦ rw (e, a, b, p.clean_ascii (codes "stop") refl) refl
        | inr e ↦ rw (e, a, b, p.clean_ascii (codes "stop") refl) refl
      ]
    ]
  ]

  -- On a body that gjson reads as the chat completion which buildOpenAIResponse makes of a response
  -- with counts below 2 ^ 64, parseOpenAIResponse gives the model, the texts joined to one block (none
  -- where they are empty), then the tool calls in their order, their arguments as `ensureJSONObject`
  -- leaves them, the counts, and the stop reason, where all but max_tokens and tool_use become
  -- end_turn. Other blocks are lost, and bytes that are not UTF-8 are replaced.
  pub build_openai_response-parse :
      (nr : NormResponse) (body : Text)
      → Reads v body (build_openai_response j nr)
      → nr.input_tokens < modulus
      → nr.output_tokens < modulus
      → parse_openai_response j body ≡ record {
        model = p.clean nr.model;
        stop_reason = finish_of nr.stop_reason;
        content =
            clean_text (join_parts (concat_map text_part nr.content))
            ++ map (clean_call j p) (concat_map use_part nr.content);
        input_tokens = nr.input_tokens;
        output_tokens = nr.output_tokens;
      }
  unfolding parse_openai_response build_openai_response first_key field_of message_doc
  build_openai_response-parse nr body reads in_ok out_ok =
      let texts = concat_map text_part nr.content in
      let uses = concat_map use_part nr.content in
      let msg = some (message_doc texts uses) in
      let choice_at = reads.at_path (codes "choices.0") refl refl in
      let msg_at =
        ap (λ n. j.sub n (codes "message")) choice_at
        ∙ sub_at v _ msg (codes "message") refl refl refl in
      let usage_at = reads.at_path (codes "usage") refl refl in
      response_ext (ap j.string (reads.at_path (codes "model") refl refl) ∙ v.string_str nr.model)
        (ap (λ n. map_finish_reason (text_at j n (codes "finish_reason"))) choice_at
          ∙ (ap map_finish_reason (
                text_view v _ (codes "finish_reason") (unmap_finish_reason nr.stop_reason) refl refl
                  refl)
              ∙ finish_lem nr.stop_reason))
        (ap
            (λ n.
              unless_empty j (text_at j n (codes "content"))
              ++ map (openai_tool_call j) (j.items (j.sub n (codes "tool_calls"))))
            msg_at
          ∙ content_lem texts uses)
        (ap (λ n. count_at j n (codes "prompt_tokens")) usage_at
          ∙ count_view v _ (codes "prompt_tokens") nr.input_tokens refl refl refl in_ok refl)
        (ap (λ n. count_at j n (codes "completion_tokens")) usage_at
          ∙ count_view v _ (codes "completion_tokens") nr.output_tokens refl refl refl out_ok refl)
