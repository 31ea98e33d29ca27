-- ===== src/Translate/Views.antt =====
-- Reading a value that `json.Marshal` has printed: what gjson finds in it, for the paths that the
-- parsers read.
use simple_api.Translate.Helpers.{text_at}
use simple_api.Base.{
  ◌<◌, ◌≡◌, ap, ◌∙◌, Bool, true, false, not, ◌&&◌, Option, none, some, List, [], ◌∷◌, map, ltb, eqb,
  if◌then◌else◌, ◌==◌, nat_eq, bool_eq, pair_eq, any, all, Text, codes, text_eq,
}
use simple_api.Base.Int64.{Int64, modulus}
use simple_api.Json.{Json, is_string, is_json}
use simple_api.Translate.Doc.{
  Doc, Docs, Fields, null, bool, int, float, str, raw, array, object, no_docs, item, no_fields,
  with_field,
}

-- The first key of a path, and what is behind its dot.
unfoldable pub first_key : Text → Text × Option Text
first_key [] = ([], none)
first_key (c ∷ s) =
    let rest = first_key s in if eqb c b'.' then ([], some s) else (c ∷ rest.0, rest.1)

-- The paths that the parsers read.
abbrev paths : List Text
paths =
    codes "model"
    ∷ codes "stream"
    ∷ codes "type"
    ∷ codes "text"
    ∷ codes "id"
    ∷ codes "name"
    ∷ codes "role"
    ∷ codes "content"
    ∷ codes "system"
    ∷ codes "messages"
    ∷ codes "tools"
    ∷ codes "max_tokens"
    ∷ codes "temperature"
    ∷ codes "top_p"
    ∷ codes "stop"
    ∷ codes "stop_sequences"
    ∷ codes "input"
    ∷ codes "stop_reason"
    ∷ codes "usage"
    ∷ codes "input_tokens"
    ∷ codes "output_tokens"
    ∷ codes "source.media_type"
    ∷ codes "source.data"
    ∷ codes "tool_use_id"
    ∷ codes "is_error"
    ∷ codes "thinking"
    ∷ codes "description"
    ∷ codes "input_schema"
    ∷ codes "choices.0"
    ∷ codes "finish_reason"
    ∷ codes "message"
    ∷ codes "tool_calls"
    ∷ codes "function.name"
    ∷ codes "function.arguments"
    ∷ codes "prompt_tokens"
    ∷ codes "completion_tokens"
    ∷ codes "status"
    ∷ codes "output"
    ∷ codes "call_id"
    ∷ codes "arguments"
    ∷ []

abbrev pub is_path : Text → Bool
is_path s = any (λ p. p == s) paths

unfoldable pub field_of : Text → Fields → Option Doc
field_of k no_fields = none
field_of k (with_field k' d fs) = if k == k' then some d else field_of k fs

-- The member of a value that a key names: a field, or the first element by "0".
abbrev pub member : Text → Option Doc → Option Doc
unfolding field_of
member k (some (object fs)) = field_of k fs
member k (some (array (item d ds))) = if k == codes "0" then some d else none
member k _ = none

-- Along a path of at most two keys, as the program's are.
abbrev pub at_rest : Option Text → Option Doc → Option Doc
unfolding field_of
at_rest none d = d
at_rest (some k) d = member k d

abbrev pub at : Text → Option Doc → Option Doc
unfolding first_key field_of
at path d = at_rest (first_key path).1 (member (first_key path).0 d)

abbrev pub is_raw : Option Doc → Bool
is_raw (some (raw t)) = true
is_raw _ = false

-- No key of the path is looked up in a raw message, whose members are not those of a `Doc`.
abbrev pub in_sight : Text → Option Doc → Bool
unfolding first_key field_of
in_sight path d = not (is_raw d) && rest_in_sight (first_key path).1 (member (first_key path).0 d)
  where
    rest_in_sight : Option Text → Option Doc → Bool
    rest_in_sight none d = true
    rest_in_sight (some k) d = not (is_raw d)

abbrev pub list_of : Docs → List Doc
list_of no_docs = []
list_of (item d ds) = d ∷ list_of ds

abbrev pub has_doc : Option Doc → Bool
has_doc none = false
has_doc (some d) = true

-- What a text becomes by printing and reading: bytes that are not UTF-8 are replaced.
pub record Printing : Type 0 where
  pub clean : Text → Text
  -- what `json.Marshal` prints of a raw message: without the spaces between its tokens, and with the
  -- characters of HTML escaped
  pub compact : Text → Text
  -- the texts of numbers as `Result.Float` gives them
  pub is_number : Text → Bool
  pub clean_ascii : (s : Text) → all (λ c. ltb c 128) s ≡ true → clean s ≡ s
  pub clean_empty : (s : Text) → (clean s == []) ≡ (s == [])
  pub compact_object : compact (codes "{}") ≡ codes "{}"

-- The nodes of printed values. What gjson finds within a raw message is left open.
pub record Views (j : Json) (p : Printing) : Type 0 where
  pub view : Option Doc → j.Node
  pub sub_view :
      (d : Option Doc) (path : Text)
      → is_path path ≡ true
      → in_sight path d ≡ true
      → j.sub (view d) path ≡ view (at path d)
  pub exists_view : (d : Option Doc) → j.exists (view d) ≡ has_doc d
  pub string_str : (s : Text) → j.string (view (some (str s))) ≡ p.clean s
  pub string_null : j.string (view (some null)) ≡ []
  pub string_none : j.string (view none) ≡ []
  pub kind_array : (ds : Docs) → j.kind (view (some (array ds))) ≡ is_json
  pub kind_str : (s : Text) → j.kind (view (some (str s))) ≡ is_string
  pub items_array :
      (ds : Docs) → j.items (view (some (array ds))) ≡ map (λ d. view (some d)) (list_of ds)
  pub items_none : j.items (view none) ≡ []
  pub int_int : (n : Int64) → n < modulus → j.int_of (view (some (int n))) ≡ n
  pub bool_bool : (b : Bool) → j.bool_of (view (some (bool b))) ≡ b
  pub bool_none : j.bool_of (view none) ≡ false
  pub float_float :
      (t : Text) → p.is_number t ≡ true → j.float_of (view (some (float (some t)))) ≡ some t
  pub is_array_array : (ds : Docs) → j.is_array (view (some (array ds))) ≡ true
  pub is_array_none : j.is_array (view none) ≡ false
  pub raw_raw : (t : Text) → j.raw (view (some (raw t))) ≡ p.compact t

module _ {j : Json} {p : Printing} (v : Views j p) where
  pub sub_at :
      (d e : Option Doc) (path : Text)
      → is_path path ≡ true
      → in_sight path d ≡ true
      → at path d ≡ e
      → j.sub (v.view d) path ≡ v.view e
  sub_at d e path h k q = v.sub_view d path h k ∙ ap v.view q

  pub text_view :
      (d : Option Doc) (path s : Text)
      → is_path path ≡ true
      → in_sight path d ≡ true
      → at path d ≡ some (str s)
      → text_at j (v.view d) path ≡ p.clean s
  text_view d path s h k e = ap j.string (sub_at d (some (str s)) path h k e) ∙ v.string_str s

  -- A text of the program's own stays as it is.
  pub own_text :
      (d : Option Doc) (path s : Text)
      → is_path path ≡ true
      → in_sight path d ≡ true
      → at path d ≡ some (str s)
      → all (λ c. ltb c 128) s ≡ true
      → text_at j (v.view d) path ≡ s
  own_text d path s h k e a = text_view d path s h k e ∙ p.clean_ascii s a

-- The body is a text of the value: gjson finds the value's members in it.
pub record Reads {j : Json} {p : Printing} (v : Views j p) (body : Text) (d : Doc) : Type 0 where
  pub at_path :
      (path : Text)
      → is_path path ≡ true
      → in_sight path (some d) ≡ true
      → j.get body path ≡ v.view (at path (some d))
