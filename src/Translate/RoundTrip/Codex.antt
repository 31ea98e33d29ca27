-- ===== src/Translate/RoundTrip/Codex.antt =====
-- parseCodexResponse on what buildCodexResponse prints.
use simple_api.Base.Int64.{modulus}
use simple_api.Base.{
  ◌<◌, ◌≡◌, refl, ap, ◌∙◌, inl, inr, some, List, [], ◌∷◌, ◌++◌, map, if◌then◌else◌, Bool-cases,
  ◌==◌, eq_of_==, nat_eq, bool_eq, pair_eq, Text, codes, text_eq,
}
use simple_api.Json.{Json}
use simple_api.Translate.Doc.{Doc, slice, map_of, str}
use simple_api.Translate.Norm.{Content, text_content, NormResponse}
use simple_api.Translate.Helpers.{concat_map, ensure_json_object, count_at}
use simple_api.Translate.Views.{
  first_key, field_of, Printing, Views, sub_at, text_view, own_text, Reads,
}
use simple_api.Translate.Rounds.{
  concat_map-append, map-append, response_ext, items_slice, count_view, clean_call,
}
use simple_api.Translate.Openai.Build.{text_part, use_part, join_parts}
use simple_api.Translate.Codex.{
  map_codex_status, unmap_codex_status, output_text, output_item, parse_codex_response,
}
use simple_api.Translate.Codex.Build.{function_call, output_message, build_codex_response}

-- What is left of a stop reason on the way through `status`.
abbrev pub status_of : Text → Text
status_of s = if s == codes "max_tokens" then s else codes "end_turn"

module _ {j : Json} {p : Printing} (v : Views j p) where
  abbrev pub clean_texts : List Text → List Content
  unfolding join_parts
  clean_texts [] = []
  clean_texts (t ∷ ts) = text_content (p.clean (join_parts (t ∷ ts))) ∷ []

  -- A node as it is viewed.
  abbrev see : Doc → j.Node
  see d = v.view (some d)

  call_lem : (c : Content) → output_item j (see (function_call j c)) ≡ (clean_call j p) c ∷ []
  unfolding first_key field_of ensure_json_object concat_map
  call_lem c =
      let d = some (function_call j c) in
      rw
        (
          own_text v d (codes "type") (codes "function_call") refl refl refl refl,
          text_view v d (codes "call_id") c.tool_id refl refl refl,
          text_view v d (codes "name") c.tool_name refl refl refl,
          text_view v d (codes "arguments") (ensure_json_object j c.tool_input) refl refl refl,
        )
        refl

  part_doc : Text → Doc
  part_doc t = map_of ((codes "type", str (codes "output_text")) ∷ (codes "text", str t) ∷ [])

  part_lem : (t : Text) → output_text j (see (part_doc t)) ≡ text_content (p.clean t) ∷ []
  unfolding part_doc first_key field_of
  part_lem t =
      let d = some (part_doc t) in
      rw
        (
          own_text v d (codes "type") (codes "output_text") refl refl refl refl,
          text_view v d (codes "text") t refl refl refl,
        )
        refl

  message_doc : Text → Doc
  unfolding part_doc
  message_doc t = map_of (
      (codes "type", str (codes "message"))
      ∷ (codes "role", str (codes "assistant"))
      ∷ (codes "content", slice (part_doc t ∷ []))
      ∷ [])

  message_lem : (t : Text) → output_item j (see (message_doc t)) ≡ text_content (p.clean t) ∷ []
  unfolding message_doc first_key field_of concat_map
  message_lem t =
      let d = some (message_doc t) in
      rw (own_text v d (codes "type") (codes "message") refl refl refl refl) (
        ap (λ n. concat_map (output_text j) (j.items n))
          (sub_at v d (some (slice (part_doc t ∷ []))) (codes "content") refl refl refl)
        ∙ (ap (λ ns. concat_map (output_text j) ns) (items_slice v (part_doc t ∷ []))
            ∙ ap (λ cs. cs ++ []) (part_lem t)))

  texts_lem :
      (ts : List Text) → concat_map (output_item j) (map see (output_message j ts)) ≡ clean_texts ts
  unfolding concat_map join_parts message_doc part_doc
  texts_lem [] = refl
  texts_lem (t ∷ ts) = ap (λ cs. cs ++ []) (message_lem (join_parts (t ∷ ts)))

  calls_lem :
      (uses : List Content)
      → concat_map (output_item j) (map see (map (function_call j) uses))
        ≡ map (clean_call j p) uses
  unfolding concat_map
  calls_lem [] = refl
  calls_lem (c ∷ cs) = rw (call_lem c, calls_lem cs) refl

  output_lem :
      (ts : List Text) (uses : List Content)
      → concat_map
          (output_item j)
          (j.items (see (slice (output_message j ts ++ map (function_call j) uses))))
        ≡ clean_texts ts ++ map (clean_call j p) uses
  output_lem ts uses =
      ap (λ ns. concat_map (output_item j) ns)
        (items_slice v (output_message j ts ++ map (function_call j) uses))
      ∙ (ap (λ ns. concat_map (output_item j) ns)
            (map-append see (output_message j ts) (map (function_call j) uses))
          ∙ (concat_map-append (output_item j) (map see (output_message j ts))
                (map see (map (function_call j) uses))
              ∙ (ap (λ cs. cs ++ concat_map (output_item j) (map see (map (function_call j) uses)))
                    (texts_lem ts)
                  ∙ ap (λ cs. clean_texts ts ++ cs) (calls_lem uses))))

  status_lem : (s : Text) → map_codex_status (p.clean (unmap_codex_status s)) ≡ status_of s
  unfolding map_codex_status unmap_codex_status
  status_lem s = elim (Bool-cases (s == codes "max_tokens")) [
    | inl e ↦ rw (eq_of_== s (codes "max_tokens") e, p.clean_ascii (codes "incomplete") refl) refl
    | inr e ↦ rw (e, p.clean_ascii (codes "completed") refl) refl
  ]

  -- On a body that gjson reads as the response object which buildCodexResponse makes of a response with
  -- counts below 2 ^ 64, parseCodexResponse gives the model, the texts joined to one block, then the
  -- tool calls in their order, their arguments as `ensureJSONObject` leaves them, the counts, and the
  -- stop reason, where all but max_tokens become end_turn. Other blocks are lost, and bytes that are
  -- not UTF-8 are replaced.
  pub build_codex_response-parse :
      (nr : NormResponse) (body : Text)
      → Reads v body (build_codex_response j nr)
      → nr.input_tokens < modulus
      → nr.output_tokens < modulus
      → parse_codex_response j body ≡ record {
        model = p.clean nr.model;
        stop_reason = status_of nr.stop_reason;
        content =
            clean_texts (concat_map text_part nr.content)
            ++ map (clean_call j p) (concat_map use_part nr.content);
        input_tokens = nr.input_tokens;
        output_tokens = nr.output_tokens;
      }
  unfolding parse_codex_response build_codex_response first_key field_of
  build_codex_response-parse nr body reads in_ok out_ok =
      let usage_at = reads.at_path (codes "usage") refl refl in
      response_ext (ap j.string (reads.at_path (codes "model") refl refl) ∙ v.string_str nr.model)
        (ap (λ n. map_codex_status (j.string n)) (reads.at_path (codes "status") refl refl)
          ∙ (ap map_codex_status (v.string_str (unmap_codex_status nr.stop_reason))
              ∙ status_lem nr.stop_reason))
        (ap (λ n. concat_map (output_item j) (j.items n)) (reads.at_path (codes "output") refl refl)
          ∙ output_lem (concat_map text_part nr.content) (concat_map use_part nr.content))
        (ap (λ n. count_at j n (codes "input_tokens")) usage_at
          ∙ count_view v _ (codes "input_tokens") nr.input_tokens refl refl refl in_ok refl)
        (ap (λ n. count_at j n (codes "output_tokens")) usage_at
          ∙ count_view v _ (codes "output_tokens") nr.output_tokens refl refl refl out_ok refl)
