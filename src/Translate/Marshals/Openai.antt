-- ===== src/Translate/Marshals/Openai.antt =====
-- What buildOpenAIRequest and buildOpenAIResponse hand to `json.Marshal`.
use simple_api.Base.Int64.{positive}
use simple_api.Translate.Helpers.{concat_map, Split, split_content, join_text, ensure_json_object}
use simple_api.Base.{
  ◌≡◌, refl, ◌∙◌, inl, inr, Bool, true, ◌&&◌, List, [], ◌∷◌, ◌++◌, map, Bool-cases, ◌==◌, nat_eq,
  bool_eq, pair_eq, all, Text, codes, text_eq,
}
use simple_api.Json.{Json}
use simple_api.Translate.Doc.{slice, map_of, set_if, marshals, int, str}
use simple_api.Translate.Norm.{Content, Message, Tool, NormRequest, NormResponse}
use simple_api.Translate.Openai.Build.{
  user_block, build_user_content, tool_message, build_tool_call, tool_calls, assistant_content,
  build_entry, build_openai_messages, build_openai_tool, build_stop, system_message,
  openai_message_list, build_openai_request, text_part, use_part, join_parts, text_or_null,
  build_openai_response,
}
use simple_api.Translate.Marshals.{
  and-true, all-true, takes_schema, takes_numbers, docs_lem, entries, both_lem, all-append,
  rounds_lem, each_lem, strings_lem, set_if_lem, slice_lem, tools_lem, numbers_lem, if_lem,
}

module _ (takes : Text → Bool) where
  stop_lem : (ts : List Text) → entries takes (build_stop ts) ≡ true
  unfolding marshals
  stop_lem [] = refl
  stop_lem (t ∷ []) = refl
  stop_lem (t ∷ t' ∷ ts) = rw (strings_lem takes ts) refl

  openai_tool_lem : (t : Tool) → marshals takes (build_openai_tool t) ≡ takes_schema takes t
  unfolding marshals
  openai_tool_lem t = and-true (takes_schema takes t && true) ∙ and-true (takes_schema takes t)

  user_block_lem : (c : Content) → all (marshals takes) (user_block c) ≡ true
  unfolding marshals
  user_block_lem c = elim (Bool-cases (c.type == codes "text")) [
    | inl e ↦ rw e refl
    | inr a ↦ elim (Bool-cases (c.type == codes "image")) [
      | inl e ↦ rw (a, e) refl
      | inr e ↦ rw (a, e) refl
    ]
  ]

  user_content_lem : (cs : List Content) → marshals takes (build_user_content cs) ≡ true
  unfolding build_user_content marshals
  user_content_lem [] = refl
  user_content_lem (c ∷ []) =
      if_lem takes (c.type == codes "text") (str c.text) (slice (user_block c)) refl
        (docs_lem takes (user_block c) ∙ user_block_lem c)
  user_content_lem (c ∷ c' ∷ cs) =
      docs_lem takes (user_block c ++ (user_block c' ++ concat_map user_block cs))
      ∙ rounds_lem takes user_block (λ x. true) user_block_lem (c ∷ c' ∷ cs)
      ∙ all-true (c ∷ c' ∷ cs)

  tool_calls_lem : (j : Json) (uses : List Content) → entries takes (tool_calls j uses) ≡ true
  unfolding marshals ensure_json_object
  tool_calls_lem j [] = refl
  tool_calls_lem j (c ∷ cs) =
      and-true (marshals takes (slice (map (build_tool_call j) (c ∷ cs))))
      ∙ (slice_lem takes (build_tool_call j) (λ x. true) (λ x. refl) (c ∷ cs) ∙ all-true (c ∷ cs))

  assistant_lem :
      (j : Json) (texts : List Content) → marshals takes (assistant_content j texts) ≡ true
  unfolding marshals join_text
  assistant_lem j [] = refl
  assistant_lem j (c ∷ cs) = refl

  entry_lem :
      (j : Json) (role : Text) (parts : Split) → marshals takes (build_entry j role parts) ≡ true
  unfolding marshals ensure_json_object build_user_content join_text
  entry_lem j role (texts, (results, uses)) =
      if_lem takes (role == codes "assistant")
        (map_of (
          (codes "role", str role)
          ∷ (codes "content", assistant_content j texts)
          ∷ tool_calls j uses))
        (map_of ((codes "role", str role) ∷ (codes "content", build_user_content texts) ∷ []))
        (λ i. assistant_lem j texts i && tool_calls_lem j uses i)
        (λ i. user_content_lem texts i && true)

  message_lem : (j : Json) (m : Message) → all (marshals takes) (build_openai_messages j m) ≡ true
  unfolding marshals split_content ensure_json_object build_user_content join_text
  message_lem j m =
      let parts = split_content m.content in
      all-append takes (map tool_message parts.1.0) (build_entry j m.role parts ∷ []) ∙ (λ i.
        (each_lem takes tool_message (λ c. true) (λ c. refl) parts.1.0 ∙ all-true parts.1.0) i
        && (entry_lem j m.role parts i && true))

  system_lem : (cs : List Content) → all (marshals takes) (system_message cs) ≡ true
  unfolding marshals join_text
  system_lem [] = refl
  system_lem (c ∷ cs) = refl

  messages_lem :
      (j : Json) (nr : NormRequest) → marshals takes (slice (openai_message_list j nr)) ≡ true
  unfolding marshals openai_message_list
  messages_lem j nr =
      docs_lem takes (openai_message_list j nr)
      ∙ (all-append takes (system_message nr.system)
            (concat_map (build_openai_messages j) nr.messages)
          ∙ (λ i.
              system_lem nr.system i
              && (rounds_lem takes (build_openai_messages j) (λ m. true) (message_lem j) nr.messages
                    ∙ all-true nr.messages)
                  i))

  pub build_openai_request-marshals :
      (j : Json) (nr : NormRequest)
      → marshals takes (build_openai_request j nr)
        ≡ (takes_numbers nr && all (takes_schema takes) nr.tools)
  unfolding build_openai_request marshals
  build_openai_request-marshals j nr =
      both_lem takes (set_if (positive nr.max_tokens) (codes "max_tokens") (int nr.max_tokens)) _
        (set_if_lem takes (positive nr.max_tokens) (codes "max_tokens") (int nr.max_tokens) refl)
        (numbers_lem takes nr _ _ (
          both_lem takes (build_stop nr.stop) _ (stop_lem nr.stop) (λ i.
            messages_lem j nr i && tools_lem takes build_openai_tool openai_tool_lem nr.tools i)))

  text_lem : (ts : List Text) → marshals takes (text_or_null ts) ≡ true
  unfolding marshals join_parts
  text_lem [] = refl
  text_lem (t ∷ ts) = refl

  pub build_openai_response-marshals :
      (j : Json) (nr : NormResponse) → marshals takes (build_openai_response j nr) ≡ true
  unfolding build_openai_response marshals
  build_openai_response-marshals j nr = λ i.
      ((text_lem (concat_map text_part nr.content) i
          && tool_calls_lem j (concat_map use_part nr.content) i)
        && true
        && true)
      && true
