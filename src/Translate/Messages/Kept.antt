-- ===== src/Translate/Messages/Kept.antt =====
-- The tool calls and the tool results of a request, in the two protocols that take them out of their
-- messages.
use simple_api.Base.{
  ◌≡◌, refl, ◌∙◌, inl, inr, false, List, [], ◌∷◌, ◌++◌, map, append-nil, Bool-cases, ◌==◌, nat_eq,
  bool_eq, pair_eq, All, Text, codes, text_eq,
}
use simple_api.Json.{Json}
use simple_api.Translate.Doc.{Doc, map_of, null, str}
use simple_api.Translate.Norm.{Content, Message, NormRequest}
use simple_api.Translate.Helpers.{concat_map, Split, split_content, join_text, ensure_json_object}
use simple_api.Translate.Rounds.{concat_map-append}
use simple_api.Translate.Openai.Build.{
  build_user_content, tool_message, build_entry, build_openai_messages, system_message,
  openai_message_list,
}
use simple_api.Translate.Codex.Build.{
  function_call, function_call_output, message_item, input_items, codex_input,
}
use simple_api.Translate.Messages.{
  contents, result_pair, triple_of, call_triple, openai_result, codex_result, codex_call_of,
  split_results, split_uses, concat_map-one, concat_map-none, nested, only_results-split,
}

module _ (j : Json) where
  entry_result : (role : Text) (parts : Split) → openai_result (build_entry j role parts) ≡ []
  unfolding openai_result ensure_json_object build_user_content join_text
  entry_result role (texts, (results, [])) = elim (Bool-cases (role == codes "assistant")) [
    | inl e ↦ rw e refl
    | inr e ↦ rw e refl
  ]
  entry_result role (texts, (results, c ∷ cs)) = elim (Bool-cases (role == codes "assistant")) [
    | inl e ↦ rw e refl
    | inr e ↦ rw e refl
  ]

  tool_message_result :
      (c : Content) → openai_result (tool_message c) ≡ (c.tool_id, c.tool_result) ∷ []
  unfolding openai_result
  tool_message_result c = refl

  message_results :
      (m : Message)
      → concat_map openai_result (build_openai_messages j m) ≡ concat_map result_pair m.content
  unfolding split_content ensure_json_object build_user_content join_text concat_map
  message_results m =
      let parts = split_content m.content in
      concat_map-append openai_result (map tool_message parts.1.0) (build_entry j m.role parts ∷ [])
      ∙ ((λ i.
            concat_map-one openai_result tool_message (λ c. (c.tool_id, c.tool_result))
              tool_message_result parts.1.0 i
            ++ (entry_result m.role parts i ++ []))
          ∙ (append-nil _ ∙ split_results m.content))

  system_results : (cs : List Content) → concat_map openai_result (system_message cs) ≡ []
  unfolding concat_map openai_result join_text
  system_results [] = refl
  system_results (c ∷ cs) = refl

  output_result :
      (c : Content) → codex_result (function_call_output j c) ≡ (c.tool_id, c.tool_result) ∷ []
  unfolding codex_result
  output_result c = refl

  output_call : (c : Content) → codex_call_of (function_call_output j c) ≡ []
  unfolding codex_call_of
  output_call c = refl

  call_result : (c : Content) → codex_result (function_call j c) ≡ []
  unfolding codex_result ensure_json_object
  call_result c = refl

  call_call :
      (c : Content)
      → codex_call_of (function_call j c)
        ≡ (c.tool_id, (c.tool_name, ensure_json_object j c.tool_input)) ∷ []
  unfolding codex_call_of ensure_json_object
  call_call c = refl

  -- The item of a message's texts holds neither.
  item_results :
      (role : Text) (cs : List Content) → concat_map codex_result (message_item j role cs) ≡ []
  unfolding concat_map codex_result
  item_results role [] = refl
  item_results role (c ∷ cs) = refl

  item_calls :
      (role : Text) (cs : List Content) → concat_map codex_call_of (message_item j role cs) ≡ []
  unfolding concat_map codex_call_of
  item_calls role [] = refl
  item_calls role (c ∷ cs) = refl

  -- The three groups of a message's items, read alike.
  groups_lem :
      {B : Type 0} (f : Doc → List B) (xs ys zs : List Doc) {a b c : List B}
      → concat_map f xs ≡ a
      → concat_map f ys ≡ b
      → concat_map f zs ≡ c
      → concat_map f (xs ++ (ys ++ zs)) ≡ a ++ (b ++ c)
  groups_lem f xs ys zs p q r =
      concat_map-append f xs (ys ++ zs)
      ∙ (λ i. p i ++ (concat_map-append f ys zs ∙ (λ k. q k ++ r k)) i)

  items_results :
      (m : Message) → concat_map codex_result (input_items j m) ≡ concat_map result_pair m.content
  unfolding split_content concat_map ensure_json_object
  items_results m =
      let parts = split_content m.content in
      groups_lem codex_result (message_item j m.role parts.0) (map (function_call j) parts.1.1)
        (map (function_call_output j) parts.1.0) (item_results m.role parts.0)
        (concat_map-none codex_result (function_call j) call_result parts.1.1)
        (concat_map-one codex_result (function_call_output j) (λ c. (c.tool_id, c.tool_result))
          output_result parts.1.0)
      ∙ split_results m.content

  items_calls :
      (m : Message)
      → concat_map codex_call_of (input_items j m) ≡ concat_map (call_triple j) m.content
  unfolding split_content concat_map ensure_json_object
  items_calls m =
      let parts = split_content m.content in
      groups_lem codex_call_of (message_item j m.role parts.0) (map (function_call j) parts.1.1)
        (map (function_call_output j) parts.1.0) (item_calls m.role parts.0)
        (concat_map-one codex_call_of (function_call j) (triple_of j) call_call parts.1.1)
        (concat_map-none codex_call_of (function_call_output j) output_call parts.1.0)
      ∙ (append-nil _ ∙ split_uses j m.content)

  -- The tool results of a request's messages, each with its call's id, stand in the chat messages and in
  -- the `input` of the Responses protocol in the same order, and no other tool results do; and the items
  -- of `input` that are tool calls are those of the messages in the same order, their arguments as
  -- `ensureJSONObject` leaves them.
  pub tools_kept :
      (nr : NormRequest)
      → (concat_map openai_result (openai_message_list j nr) ≡ concat_map result_pair (contents nr))
        × ((concat_map codex_result (codex_input j nr) ≡ concat_map result_pair (contents nr))
            × (concat_map codex_call_of (codex_input j nr)
                ≡ concat_map (call_triple j) (contents nr)))
  unfolding openai_message_list codex_input contents
  tools_kept nr = (
    concat_map-append openai_result (system_message nr.system)
          (concat_map (build_openai_messages j) nr.messages)
        ∙ (λ i.
            system_results nr.system i
            ++ nested openai_result (build_openai_messages j) result_pair message_results
                nr.messages i),
    (
      nested codex_result (input_items j) result_pair items_results nr.messages,
      nested codex_call_of (input_items j) (call_triple j) items_calls nr.messages,
    ),
  )

-- A message that is not the assistant's and holds nothing but tool results gives the chat messages of the
-- results, and then one of its own with the content null.
pub only_results-null :
    (j : Json) (role : Text) (cs : List Content)
    → (role == codes "assistant") ≡ false
    → All (λ c. c.type ≡ codes "tool_result") cs
    → build_openai_messages j (record { role = role; content = cs })
      ≡ map tool_message cs
        ++ (map_of ((codes "role", str role) ∷ (codes "content", null) ∷ []) ∷ [])
unfolding split_content ensure_json_object build_user_content join_text
only_results-null j role cs r h =
    (λ i.
      let parts = only_results-split cs h i in
      map tool_message parts.1.0 ++ (build_entry j role parts ∷ []))
    ∙ rw r refl
