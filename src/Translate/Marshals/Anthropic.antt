-- ===== src/Translate/Marshals/Anthropic.antt =====
-- What buildAnthropicRequest and buildAnthropicResponse hand to `json.Marshal`.
use simple_api.Base.{
  ◌≡◌, refl, ap, ◌∙◌, inl, inr, Bool, true, false, ◌&&◌, ◌||◌, List, [], ◌∷◌, map, if◌then◌else◌,
  Bool-cases, ◌==◌, eq_of_==, nat_eq, bool_eq, pair_eq, all, Text, codes, text_eq,
}
use simple_api.Translate.Doc.{Doc, slice, set_if, marshals, str}
use simple_api.Translate.Norm.{Content, Message, Tool, NormRequest, NormResponse}
use simple_api.Translate.Helpers.{concat_map, raw_text, has_items}
use simple_api.Translate.Anthropic.{
  text_doc, image_doc, result_doc, build_anthropic_block, build_anthropic_content,
  build_anthropic_message, build_anthropic_tool, build_anthropic_request, build_anthropic_response,
}
use simple_api.Translate.Marshals.{
  and-true, takes_input, takes_schema, takes_numbers, takes_message, docs_lem, entries, both_lem,
  rounds_lem, strings_lem, set_if_lem, slice_lem, tools_lem, numbers_lem,
}

module _ (takes : Text → Bool) where
  -- Of some lists, one whose values are printed.
  one_of_lem :
      (a : Bool) (ds es : List Doc)
      → all (marshals takes) ds ≡ true
      → all (marshals takes) es ≡ true
      → all (marshals takes) (if a then ds else es) ≡ true
  one_of_lem true ds es p q = p
  one_of_lem false ds es p q = q

  block_lem : (c : Content) → all (marshals takes) (build_anthropic_block c) ≡ takes_input takes c
  unfolding marshals
  block_lem c = elim (Bool-cases (c.type == codes "tool_use")) [
    | inl e ↦ rw (eq_of_== c.type (codes "tool_use") e) (
        and-true (takes (raw_text c.tool_input) && true) ∙ and-true (takes (raw_text c.tool_input)))
    | inr e ↦ rw e (
        one_of_lem (c.type == codes "text" || c.type == codes "thinking") (text_doc c.text ∷ []) _
          refl
          (one_of_lem (c.type == codes "image") (image_doc c ∷ []) _ refl
            (one_of_lem (c.type == codes "tool_result") (result_doc c ∷ []) [] refl refl)))
  ]

  content_lem :
      (cs : List Content) → marshals takes (build_anthropic_content cs) ≡ all (takes_input takes) cs
  unfolding build_anthropic_content marshals
  content_lem cs =
      docs_lem takes (concat_map build_anthropic_block cs)
      ∙ rounds_lem takes build_anthropic_block (takes_input takes) block_lem cs

  pub build_anthropic_response-marshals :
      (nr : NormResponse)
      → marshals takes (build_anthropic_response nr) ≡ all (takes_input takes) nr.content
  unfolding build_anthropic_response marshals
  build_anthropic_response-marshals nr =
      ap (λ b. b && true) (content_lem nr.content) ∙ and-true (all (takes_input takes) nr.content)

  anthropic_message_lem :
      (m : Message) → marshals takes (build_anthropic_message m) ≡ takes_message takes m
  unfolding marshals build_anthropic_content
  anthropic_message_lem m =
      ap (λ b. b && true) (content_lem m.content) ∙ and-true (takes_message takes m)

  anthropic_tool_lem : (t : Tool) → marshals takes (build_anthropic_tool t) ≡ takes_schema takes t
  unfolding marshals
  anthropic_tool_lem t = and-true (takes_schema takes t)

  system_lem :
      (cs : List Content)
      → entries takes (set_if (has_items cs) (codes "system") (build_anthropic_content cs))
        ≡ all (takes_input takes) cs
  unfolding marshals
  system_lem [] = refl
  system_lem (c ∷ cs) =
      and-true (marshals takes (build_anthropic_content (c ∷ cs))) ∙ content_lem (c ∷ cs)

  pub build_anthropic_request-marshals :
      (nr : NormRequest)
      → marshals takes (build_anthropic_request nr) ≡ (
          takes_numbers nr
          && (all (takes_input takes) nr.system
              && (all (takes_message takes) nr.messages && all (takes_schema takes) nr.tools)))
  unfolding build_anthropic_request marshals
  build_anthropic_request-marshals nr = numbers_lem takes nr _ _ (
      both_lem takes (set_if (has_items nr.stop) (codes "stop_sequences") (slice (map str nr.stop)))
        _
        (set_if_lem takes (has_items nr.stop) (codes "stop_sequences") (slice (map str nr.stop))
          (strings_lem takes nr.stop))
        (both_lem takes
          (set_if (has_items nr.system) (codes "system") (build_anthropic_content nr.system)) _
          (system_lem nr.system)
          (λ i.
            slice_lem takes build_anthropic_message (takes_message takes) anthropic_message_lem
              nr.messages i
            && tools_lem takes build_anthropic_tool anthropic_tool_lem nr.tools i)))
