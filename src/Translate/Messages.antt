-- ===== src/Translate/Messages.antt =====
-- What the messages of a request become in buildOpenAIRequest and buildCodexRequest: what is read back.
pub mod Kept
use simple_api.Base.{
  ◌≡◌, refl, sym, ◌∙◌, inl, inr, Option, none, some, List, [], ◌∷◌, ◌++◌, map, if◌then◌else◌,
  Bool-cases, ◌==◌, nat_eq, bool_eq, pair_eq, All, Text, codes, text_eq,
}
use simple_api.Json.{Json}
use simple_api.Translate.Doc.{Doc, str}
use simple_api.Translate.Norm.{Content, tool_use, Message, NormRequest}
use simple_api.Translate.Helpers.{concat_map, split_content, ensure_json_object}
use simple_api.Translate.Views.{field_of, member}
use simple_api.Translate.Rounds.{concat_map-append}
use simple_api.Translate.Codex.Build.{function_call, function_call_output}

-- Every content of the messages, in order.
abbrev pub contents : NormRequest → List Content
unfolding concat_map
contents nr = concat_map (λ m. m.content) nr.messages

-- A tool result, and a tool call, of a content.
abbrev pub result_pair : Content → List (Text × Text)
result_pair c = if c.type == codes "tool_result" then (c.tool_id, c.tool_result) ∷ [] else []

abbrev pub triple_of : Json → Content → Text × (Text × Text)
triple_of j c = (c.tool_id, (c.tool_name, ensure_json_object j c.tool_input))

abbrev pub call_triple : Json → Content → List (Text × (Text × Text))
call_triple j c =
    if c.type == codes "tool_result"
    then []
    else if c.type == codes "tool_use"
    then triple_of j c ∷ []
    else []

-- The tool result that a chat message holds, and what an item of `input` holds.
abbrev pub text_or_empty : Option Doc → Text
text_or_empty (some (str s)) = s
text_or_empty _ = []

unfoldable pub openai_result : Doc → List (Text × Text)
unfolding field_of
openai_result d = elim (member (codes "tool_call_id") (some d)) [
  | none ↦ []
  | some id ↦ (text_or_empty (some id), text_or_empty (member (codes "content") (some d))) ∷ []
]

abbrev pub type_of : Doc → Text
unfolding field_of
type_of d = text_or_empty (member (codes "type") (some d))

abbrev pub member_text : Text → Doc → Text
unfolding field_of
member_text k d = text_or_empty (member k (some d))

unfoldable pub codex_result : Doc → List (Text × Text)
unfolding field_of
codex_result d =
    if type_of d == codes "function_call_output"
    then (member_text (codes "call_id") d, member_text (codes "output") d) ∷ []
    else []

unfoldable pub codex_call_of : Doc → List (Text × (Text × Text))
unfolding field_of
codex_call_of d =
    if type_of d == codes "function_call"
    then (
      member_text (codes "call_id") d,
      (member_text (codes "name") d, member_text (codes "arguments") d),
    )
      ∷ []
    else []

pub split_results :
    (cs : List Content)
    → map (λ c. (c.tool_id, c.tool_result)) (split_content cs).1.0 ≡ concat_map result_pair cs
unfolding split_content concat_map
split_results [] = refl
split_results (c ∷ cs) = elim (Bool-cases (c.type == codes "tool_result")) [
  | inl e ↦ rw (e, split_results cs) refl
  | inr a ↦ elim (Bool-cases (c.type == codes "tool_use")) [
    | inl e ↦ rw (a, e) (split_results cs)
    | inr b ↦ rw (a, b) (split_results cs)
  ]
]

pub split_uses :
    (j : Json) (cs : List Content)
    → map (triple_of j) (split_content cs).1.1 ≡ concat_map (call_triple j) cs
unfolding split_content concat_map
split_uses j [] = refl
split_uses j (c ∷ cs) = elim (Bool-cases (c.type == codes "tool_result")) [
  | inl e ↦ rw e (split_uses j cs)
  | inr a ↦ elim (Bool-cases (c.type == codes "tool_use")) [
    | inl e ↦ rw (a, e, split_uses j cs) refl
    | inr b ↦ rw (a, b) (split_uses j cs)
  ]
]

-- A list of values each of which holds one thing, or none.
pub concat_map-one :
    {A B : Type 0} (f : Doc → List B) (g : A → Doc) (h : A → B)
    → ((a : A) → f (g a) ≡ h a ∷ [])
    → (xs : List A) → concat_map f (map g xs) ≡ map h xs
unfolding concat_map
concat_map-one f g h one [] = refl
concat_map-one f g h one (x ∷ xs) = rw (one x, concat_map-one f g h one xs) refl

pub concat_map-none :
    {A B : Type 0} (f : Doc → List B) (g : A → Doc)
    → ((a : A) → f (g a) ≡ [])
    → (xs : List A) → concat_map f (map g xs) ≡ []
unfolding concat_map
concat_map-none f g empty [] = refl
concat_map-none f g empty (x ∷ xs) = rw (empty x, concat_map-none f g empty xs) refl

-- What the loop over the messages gives, read.
pub nested :
    {B C : Type 0} (f : B → List C) (g : Message → List B) (h : Content → List C)
    → ((m : Message) → concat_map f (g m) ≡ concat_map h m.content)
    → (ms : List Message)
    → concat_map f (concat_map g ms) ≡ concat_map h (concat_map (λ m. m.content) ms)
unfolding concat_map
nested f g h round [] = refl
nested f g h round (m ∷ ms) =
    concat_map-append f (g m) (concat_map g ms)
    ∙ ((λ i. round m i ++ nested f g h round ms i)
        ∙ sym (concat_map-append h m.content (concat_map (λ x. x.content) ms)))

pub only_results-split :
    (cs : List Content)
    → All (λ c. c.type ≡ codes "tool_result") cs
    → split_content cs ≡ ([], (cs, []))
unfolding split_content
only_results-split [] h = refl
only_results-split (c ∷ cs) (now, later) = rw (now, only_results-split cs later) refl
