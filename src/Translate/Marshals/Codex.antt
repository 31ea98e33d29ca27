-- ===== src/Translate/Marshals/Codex.antt =====
-- What buildCodexRequest and buildCodexResponse hand to `json.Marshal`.
use simple_api.Base.Int64.{positive}
use simple_api.Translate.Helpers.{
  concat_map, split_content, join_text, has_items, ensure_json_object,
}
use simple_api.Translate.Openai.Build.{text_part, use_part, join_parts}
use simple_api.Base.{
  ◌≡◌, refl, ◌∙◌, inl, inr, Bool, true, ◌&&◌, ◌||◌, List, [], ◌∷◌, ◌++◌, map, Bool-cases, ◌==◌,
  nat_eq, bool_eq, pair_eq, all, Text, codes, text_eq,
}
use simple_api.Json.{Json}
use simple_api.Translate.Doc.{slice, set_if, marshals, int, str}
use simple_api.Translate.Norm.{Content, Message, Tool, NormRequest, NormResponse}
use simple_api.Translate.Codex.Build.{
  function_call, function_call_output, input_block, text_kind, message_item, input_items,
  build_codex_tool, codex_input, instructions, build_codex_request, output_message,
  build_codex_response,
}
use simple_api.Translate.Marshals.{
  and-true, all-true, takes_schema, takes_numbers, docs_lem, both_lem, all-append, rounds_lem,
  each_lem, set_if_lem, tools_lem, numbers_lem,
}

module _ (takes : Text → Bool) where
  codex_tool_lem :
      (j : Json) (t : Tool) → marshals takes (build_codex_tool j t) ≡ takes_schema takes t
  unfolding marshals
  codex_tool_lem j t = and-true (takes_schema takes t)

  input_block_lem :
      (j : Json) (kind : Text) (c : Content) → all (marshals takes) (input_block j kind c) ≡ true
  unfolding marshals
  input_block_lem j kind c =
      elim (Bool-cases (c.type == codes "text" || c.type == codes "thinking")) [
        | inl e ↦ rw e refl
        | inr a ↦ elim (Bool-cases (c.type == codes "image")) [
          | inl e ↦ rw (a, e) refl
          | inr e ↦ rw (a, e) refl
        ]
      ]

  message_item_lem :
      (j : Json) (role : Text) (cs : List Content)
      → all (marshals takes) (message_item j role cs) ≡ true
  unfolding marshals concat_map
  message_item_lem j role [] = refl
  message_item_lem j role (c ∷ cs) = λ i.
      (docs_lem takes (concat_map (input_block j (text_kind j role)) (c ∷ cs))
          ∙ (rounds_lem takes (input_block j (text_kind j role)) (λ x. true)
                (input_block_lem j (text_kind j role)) (c ∷ cs)
              ∙ all-true (c ∷ cs)))
        i
      && true
      && true

  calls_lem :
      (j : Json) (uses : List Content) → all (marshals takes) (map (function_call j) uses) ≡ true
  unfolding marshals ensure_json_object
  calls_lem j uses = each_lem takes (function_call j) (λ c. true) (λ c. refl) uses ∙ all-true uses

  items_lem : (j : Json) (m : Message) → all (marshals takes) (input_items j m) ≡ true
  unfolding marshals split_content concat_map ensure_json_object
  items_lem j m =
      let parts = split_content m.content in
      all-append takes (message_item j m.role parts.0)
        (map (function_call j) parts.1.1 ++ map (function_call_output j) parts.1.0)
      ∙ (λ i.
          message_item_lem j m.role parts.0 i
          && (all-append takes (map (function_call j) parts.1.1)
                  (map (function_call_output j) parts.1.0)
                ∙ (λ k.
                    calls_lem j parts.1.1 k
                    && (each_lem takes (function_call_output j) (λ c. true) (λ c. refl) parts.1.0
                          ∙ all-true parts.1.0)
                        k))
              i)

  input_lem : (j : Json) (nr : NormRequest) → marshals takes (slice (codex_input j nr)) ≡ true
  unfolding marshals codex_input
  input_lem j nr =
      docs_lem takes (codex_input j nr)
      ∙ (rounds_lem takes (input_items j) (λ m. true) (items_lem j) nr.messages
          ∙ all-true nr.messages)

  pub build_codex_request-marshals :
      (j : Json) (nr : NormRequest)
      → marshals takes (build_codex_request j nr)
        ≡ (takes_numbers nr && all (takes_schema takes) nr.tools)
  unfolding build_codex_request marshals
  build_codex_request-marshals j nr =
      both_lem takes
        (set_if (positive nr.max_tokens) (codes "max_output_tokens") (int nr.max_tokens)) _
        (set_if_lem takes (positive nr.max_tokens) (codes "max_output_tokens") (int nr.max_tokens)
          refl)
        (numbers_lem takes nr _ _ (
          both_lem takes (instructions j nr.system) _
            (set_if_lem takes (has_items nr.system) (codes "instructions")
              (str (join_text nr.system)) refl)
            (λ i.
              input_lem j nr i
              && tools_lem takes (build_codex_tool j) (codex_tool_lem j) nr.tools i)))

  output_lem : (j : Json) (ts : List Text) → all (marshals takes) (output_message j ts) ≡ true
  unfolding marshals join_parts
  output_lem j [] = refl
  output_lem j (t ∷ ts) = refl

  pub build_codex_response-marshals :
      (j : Json) (nr : NormResponse) → marshals takes (build_codex_response j nr) ≡ true
  unfolding build_codex_response marshals
  build_codex_response-marshals j nr =
      let texts = concat_map text_part nr.content in
      let uses = concat_map use_part nr.content in
      λ i.
        (docs_lem takes (output_message j texts ++ map (function_call j) uses)
            ∙ (all-append takes (output_message j texts) (map (function_call j) uses)
                ∙ (λ k. output_lem j texts k && calls_lem j uses k)))
          i
        && true
