-- ===== src/Translate/Helpers.antt =====
-- internal/translate/helpers.go, and the helpers of openai.go that the other protocols use.
use simple_api.Base.{
  ℕ, ◌+◌, Bool, true, false, not, ◌&&◌, ◌||◌, Option, none, some, List, [], ◌∷◌, ◌++◌, map, eqb,
  if◌then◌else◌, ◌==◌, nat_eq, bool_eq, pair_eq, take, drop, all, Text, codes, text_eq, has_prefix,
  index,
}
use simple_api.Base.Spaces.{trim_space}
use simple_api.Base.Int64.{Int64}
use simple_api.Json.{is_kind, Json, is_string}
use simple_api.Translate.Doc.{Doc, raw}
use simple_api.Translate.Norm.{Content}

-- `append` in a loop, of what each round adds.
unfoldable pub concat_map {ℓ κ} : {A : Type ℓ} {B : Type κ} → (A → List B) → List A → List B
concat_map f [] = []
concat_map f (x ∷ xs) = f x ++ concat_map f xs

-- `bytesTrim`, as far as it decides whether anything is left.
abbrev pub is_json_space : ℕ → Bool
is_json_space c = eqb c 32 || (eqb c 10 || (eqb c 9 || eqb c 13))

abbrev pub is_all_space : Text → Bool
is_all_space s = all is_json_space s

-- `jsonRaw`, and the raw message that it gives.
abbrev pub raw_text : Text → Text
raw_text b = if is_all_space b then codes "{}" else b

abbrev pub json_raw : Text → Doc
json_raw b = raw (raw_text b)

-- `splitContent`.
abbrev pub Split : Type 0
Split = List Content × (List Content × List Content)

abbrev pub add_content : Content → Split → Split
add_content c (texts, (results, uses)) =
    if c.type == codes "tool_result"
    then (texts, (c ∷ results, uses))
    else if c.type == codes "tool_use"
    then (texts, (results, c ∷ uses))
    else (c ∷ texts, (results, uses))

unfoldable pub split_content : List Content → Split
split_content [] = ([], ([], []))
split_content (c ∷ cs) = add_content c (split_content cs)

-- `joinText`.
abbrev pub joined : Content → Text
joined c = if c.type == codes "text" || c.type == codes "thinking" then c.text else []

unfoldable pub join_text : List Content → Text
join_text [] = []
join_text (c ∷ cs) = joined c ++ join_text cs

abbrev pub cut_at : Text → Option ℕ → ℕ → Option Text
cut_at url none n = none
cut_at url (some i) n = some (drop (i + n) url)

abbrev pub take_to : Text → Option ℕ → Option Text
take_to s none = none
take_to s (some i) = some (take i s)

abbrev pub or_else {ℓ} : {A : Type ℓ} → Option A → A → A
or_else none a = a
or_else (some b) a = b

-- `dataURLToB64`.
unfoldable pub data_url_to_b64 : Text → Text
data_url_to_b64 url = or_else (cut_at url (index url (codes ",")) 1) url

abbrev pub media_type_of : Text → Text
media_type_of rest =
    or_else (take_to rest (index rest (codes ";base64,")))
      (or_else (take_to rest (index rest (codes ","))) [])

-- `dataURLMediaType`.
unfoldable pub data_url_media_type : Text → Text
data_url_media_type url =
    if not (has_prefix url (codes "data:")) then [] else media_type_of (drop 5 url)

-- `mapOpenAIFinishReason` and `unmapOpenAIFinishReason`.
unfoldable pub map_finish_reason : Text → Text
map_finish_reason s =
    if s == codes "stop"
    then codes "end_turn"
    else if s == codes "length"
    then codes "max_tokens"
    else if s == codes "tool_calls" || s == codes "function_call"
    then codes "tool_use"
    else codes "end_turn"

unfoldable pub unmap_finish_reason : Text → Text
unmap_finish_reason s =
    if s == codes "end_turn" || s == codes "stop_sequence"
    then codes "stop"
    else if s == codes "max_tokens"
    then codes "length"
    else if s == codes "tool_use"
    then codes "tool_calls"
    else codes "stop"

abbrev pub has_items {ℓ} : {A : Type ℓ} → List A → Bool
has_items [] = false
has_items (x ∷ xs) = true

-- The URL of an image, of buildOpenAIUserContent and buildCodexRequest.
abbrev pub data_url : Content → Text
data_url c = codes "data:" ++ (c.image_media_type ++ (codes ";base64," ++ c.image_data))

module _ (j : Json) where
  abbrev pub starts_json : Text → Bool
  starts_json [] = false
  starts_json (c ∷ s) = eqb c b'{' || eqb c b'['

  -- `ensureJSONObject`.
  unfoldable pub ensure_json_object : Text → Text
  ensure_json_object s =
      let t = trim_space s in if starts_json t && j.valid t then t else codes "{}"

  abbrev pub text_at : j.Node → Text → Text
  text_at n path = j.string (j.sub n path)

  -- `toStringSlice`.
  abbrev pub to_string_slice : j.Node → List Text
  to_string_slice n = if not (j.is_array n) then [] else map j.string (j.items n)

  abbrev pub part_text : j.Node → Text
  part_text b =
      if text_at b (codes "type") == codes "text" || j.exists (j.sub b (codes "text"))
      then text_at b (codes "text")
      else []

  -- `contentText`.
  unfoldable pub content_text : j.Node → Text
  unfolding concat_map
  content_text n =
      if not (j.exists n)
      then []
      else if is_kind (j.kind n) is_string
      then j.string n
      else concat_map part_text (j.items n)

  -- The fields that the three request parsers read alike: `temperature` and `top_p`.
  abbrev pub float_at : Text → Text → Option (Option Text)
  float_at body path =
      if j.exists (j.get body path) then some (j.float_of (j.get body path)) else none

  -- `max_tokens`, which stays 0 where it is missing.
  abbrev pub int_at : Text → Text → Int64
  int_at body path = if j.exists (j.get body path) then j.int_of (j.get body path) else 0

  -- A count of `usage`.
  abbrev pub count_at : j.Node → Text → Int64
  count_at u path = if j.exists u then j.int_of (j.sub u path) else 0
