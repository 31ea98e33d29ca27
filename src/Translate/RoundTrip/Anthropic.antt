-- ===== src/Translate/RoundTrip/Anthropic.antt =====
-- parseAnthropicResponse on what buildAnthropicResponse prints.
use simple_api.Base.{
  ◌<◌, ◌≡◌, refl, inl, inr, true, ◌||◌, some, List, [], ◌∷◌, map, ltb, if◌then◌else◌, Bool-cases,
  ◌==◌, eq_of_==, nat_eq, bool_eq, pair_eq, all, Text, codes, text_eq,
}
use simple_api.Base.Int64.{modulus}
use simple_api.Json.{Json}
use simple_api.Translate.Doc.{docs_of, map_of, bool, int, str, array}
use simple_api.Translate.Norm.{
  Content, text_content, image_content, tool_use, tool_result_content, NormResponse,
}
use simple_api.Translate.Helpers.{concat_map, raw_text, json_raw, content_text}
use simple_api.Translate.Views.{
  first_key, field_of, Printing, Views, sub_at, text_view, own_text, Reads,
}
use simple_api.Translate.Rounds.{concat_map-rounds, list_of-docs_of}
use simple_api.Translate.Anthropic.{
  anthropic_stop_reason, anthropic_block, parse_anthropic_content, parse_anthropic_response,
  text_doc, image_doc, use_doc, result_doc, build_anthropic_block, build_anthropic_content,
  build_anthropic_response,
}

module _ {j : Json} {p : Printing} (v : Views j p) where
  -- The block of the Messages protocol, after printing and reading.
  abbrev pub clean_block : Content → List Content
  clean_block c =
      if c.type == codes "text" || c.type == codes "thinking"
      then text_content (p.clean c.text) ∷ []
      else if c.type == codes "image"
      then image_content (p.clean c.image_media_type) (p.clean c.image_data) ∷ []
      else if c.type == codes "tool_use"
      then tool_use (p.clean c.tool_id) (p.clean c.tool_name) (p.compact (raw_text c.tool_input))
        ∷ []
      else if c.type == codes "tool_result"
      then record (tool_result_content (p.clean c.tool_id) (p.clean c.tool_result)) {
        is_error = c.is_error;
      }
        ∷ []
      else []

  text_block_lem :
      (t : Text) → anthropic_block j (v.view (some (text_doc t))) ≡ text_content (p.clean t) ∷ []
  unfolding content_text first_key field_of
  text_block_lem t =
      let d = some (text_doc t) in
      rw
        (
          own_text v d (codes "type") (codes "text") refl refl refl refl,
          text_view v d (codes "text") t refl refl refl,
        )
        refl

  image_block_lem :
      (c : Content)
      → anthropic_block j (v.view (some (image_doc c)))
        ≡ image_content (p.clean c.image_media_type) (p.clean c.image_data) ∷ []
  unfolding content_text first_key field_of
  image_block_lem c =
      let d = some (image_doc c) in
      rw
        (
          own_text v d (codes "type") (codes "image") refl refl refl refl,
          text_view v d (codes "source.media_type") c.image_media_type refl refl refl,
          text_view v d (codes "source.data") c.image_data refl refl refl,
        )
        refl

  use_block_lem :
      (c : Content)
      → anthropic_block j (v.view (some (use_doc c)))
        ≡ tool_use (p.clean c.tool_id) (p.clean c.tool_name) (p.compact (raw_text c.tool_input))
          ∷ []
  unfolding content_text first_key field_of
  use_block_lem c =
      let d = some (use_doc c) in
      rw
        (
          own_text v d (codes "type") (codes "tool_use") refl refl refl refl,
          text_view v d (codes "id") c.tool_id refl refl refl,
          text_view v d (codes "name") c.tool_name refl refl refl,
          sub_at v d (some (json_raw c.tool_input)) (codes "input") refl refl refl,
          v.raw_raw (raw_text c.tool_input),
        )
        refl

  result_block_lem :
      (c : Content)
      → anthropic_block j (v.view (some (result_doc c)))
        ≡ record (tool_result_content (p.clean c.tool_id) (p.clean c.tool_result)) {
          is_error = c.is_error;
        }
          ∷ []
  unfolding content_text first_key field_of
  result_block_lem c =
      let d = some (result_doc c) in
      rw
        (
          own_text v d (codes "type") (codes "tool_result") refl refl refl refl,
          text_view v d (codes "tool_use_id") c.tool_id refl refl refl,
          sub_at v d (some (str c.tool_result)) (codes "content") refl refl refl,
          v.exists_view (some (str c.tool_result)),
          v.kind_str c.tool_result,
          v.string_str c.tool_result,
          sub_at v d (some (bool c.is_error)) (codes "is_error") refl refl refl,
          v.bool_bool c.is_error,
        )
        refl

  block_lem :
      (c : Content)
      → concat_map (anthropic_block j) (map (λ d. v.view (some d)) (build_anthropic_block c))
        ≡ clean_block c
  unfolding concat_map
  block_lem c = elim (Bool-cases (c.type == codes "text" || c.type == codes "thinking")) [
    | inl e ↦ rw (e, text_block_lem c.text) refl
    | inr not_text ↦ elim (Bool-cases (c.type == codes "image")) [
      | inl e ↦ rw (not_text, e, image_block_lem c) refl
      | inr not_image ↦ elim (Bool-cases (c.type == codes "tool_use")) [
        | inl e ↦ rw (not_text, not_image, e, use_block_lem c) refl
        | inr not_use ↦ elim (Bool-cases (c.type == codes "tool_result")) [
          | inl e ↦ rw (not_text, not_image, not_use, e, result_block_lem c) refl
          | inr e ↦ rw (not_text, not_image, not_use, e) refl
        ]
      ]
    ]
  ]

  pub content_lem :
      (cs : List Content)
      → parse_anthropic_content j (v.view (some (build_anthropic_content cs)))
        ≡ concat_map clean_block cs
  unfolding parse_anthropic_content build_anthropic_content
  content_lem cs =
      let ds = docs_of (concat_map build_anthropic_block cs) in
      rw
        (
          v.exists_view (some (array ds)),
          v.kind_array ds,
          v.items_array ds,
          list_of-docs_of (concat_map build_anthropic_block cs),
        )
        (concat_map-rounds (anthropic_block j) (λ d. v.view (some d)) build_anthropic_block
          clean_block block_lem cs)

  stop_ascii : (s : Text) → all (λ c. ltb c 128) (anthropic_stop_reason s) ≡ true
  unfolding anthropic_stop_reason
  stop_ascii s = elim (Bool-cases (s == codes "end_turn")) [
    | inl e ↦ rw (eq_of_== s (codes "end_turn") e) refl
    | inr a ↦ elim (Bool-cases (s == codes "max_tokens")) [
      | inl e ↦ rw (eq_of_== s (codes "max_tokens") e) refl
      | inr b ↦ elim (Bool-cases (s == codes "stop_sequence")) [
        | inl e ↦ rw (eq_of_== s (codes "stop_sequence") e) refl
        | inr c ↦ elim (Bool-cases (s == codes "tool_use")) [
          | inl e ↦ rw (eq_of_== s (codes "tool_use") e) refl
          | inr d ↦ rw (a, b, c, d) refl
        ]
      ]
    ]
  ]

  stop_twice :
      (s : Text) → anthropic_stop_reason (anthropic_stop_reason s) ≡ anthropic_stop_reason s
  unfolding anthropic_stop_reason
  stop_twice s =
      elim (Bool-cases (
        s == codes "end_turn"
        || s == codes "max_tokens"
        || s == codes "stop_sequence"
        || s == codes "tool_use")) [ inl e ↦ rw (e, e) refl | inr e ↦ rw e refl ]

  stop_again :
      (s : Text)
      → anthropic_stop_reason (p.clean (anthropic_stop_reason s)) ≡ anthropic_stop_reason s
  stop_again s = rw (p.clean_ascii (anthropic_stop_reason s) (stop_ascii s)) (stop_twice s)

  -- On a body that gjson reads as the message which buildAnthropicResponse makes of a response with
  -- counts below 2 ^ 64, parseAnthropicResponse gives the model, the counts, the blocks in their order
  -- (a thinking block as a text, one of an unknown type dropped, a tool's input as what `json.Marshal`
  -- prints of the raw message that `jsonRaw` gives), and the stop reason, where an unknown one becomes
  -- end_turn. Bytes that are not UTF-8 are replaced.
  pub build_anthropic_response-parse :
      (nr : NormResponse) (body : Text)
      → Reads v body (build_anthropic_response nr)
      → nr.input_tokens < modulus
      → nr.output_tokens < modulus
      → parse_anthropic_response j body ≡ record {
        model = p.clean nr.model;
        stop_reason = anthropic_stop_reason nr.stop_reason;
        content = concat_map clean_block nr.content;
        input_tokens = nr.input_tokens;
        output_tokens = nr.output_tokens;
      }
  unfolding parse_anthropic_response build_anthropic_response first_key field_of
  build_anthropic_response-parse nr body reads in_ok out_ok =
      let usage = map_of (
        (codes "input_tokens", int nr.input_tokens)
        ∷ (codes "output_tokens", int nr.output_tokens)
        ∷ []) in
      rw
        (
          reads.at_path (codes "model") refl refl,
          reads.at_path (codes "stop_reason") refl refl,
          reads.at_path (codes "content") refl refl,
          reads.at_path (codes "usage") refl refl,
          v.string_str nr.model,
          v.string_str (anthropic_stop_reason nr.stop_reason),
          stop_again nr.stop_reason,
          content_lem nr.content,
          v.exists_view (some usage),
          sub_at v (some usage) (some (int nr.input_tokens)) (codes "input_tokens") refl refl refl,
          sub_at v (some usage) (some (int nr.output_tokens)) (codes "output_tokens") refl refl
              refl,
          v.int_int nr.input_tokens in_ok,
          v.int_int nr.output_tokens out_ok,
        )
        refl
