-- ===== src/Translate/Rounds.antt =====
-- The lists that the loops of the builders and of the parsers make.
use simple_api.Json.{Json}
use simple_api.Base.{
  ◌<◌, ◌≡◌, refl, sym, ap, ◌∙◌, true, Option, some, List, [], ◌∷◌, ◌++◌, map, append_assoc, Text,
}
use simple_api.Translate.Doc.{Doc, docs_of, slice, int}
use simple_api.Base.Int64.{Int64, modulus}
use simple_api.Translate.Norm.{Content, tool_use, NormResponse}
use simple_api.Translate.Helpers.{concat_map, ensure_json_object, count_at}
use simple_api.Translate.Views.{is_path, at, in_sight, list_of, has_doc, Printing, Views, sub_at}

-- `concat_map` of appended lists, and of a `concat_map` whose rounds are known.
pub concat_map-append :
    {A B : Type 0} (f : A → List B) (xs ys : List A)
    → concat_map f (xs ++ ys) ≡ concat_map f xs ++ concat_map f ys
unfolding concat_map
concat_map-append f [] ys = refl
concat_map-append f (x ∷ xs) ys =
    ap (λ t. f x ++ t) (concat_map-append f xs ys)
    ∙ sym (append_assoc (f x) (concat_map f xs) (concat_map f ys))

pub map-append :
    {A B : Type 0} (f : A → B) (xs ys : List A) → map f (xs ++ ys) ≡ map f xs ++ map f ys
map-append f [] ys = refl
map-append f (x ∷ xs) ys = ap (λ t. f x ∷ t) (map-append f xs ys)

pub concat_map-rounds :
    {A B D N : Type 0} (f : N → List B) (view : D → N) (g : A → List D) (h : A → List B)
    → ((a : A) → concat_map f (map view (g a)) ≡ h a)
    → (xs : List A) → concat_map f (map view (concat_map g xs)) ≡ concat_map h xs
unfolding concat_map
concat_map-rounds f view g h round [] = refl
concat_map-rounds f view g h round (x ∷ xs) =
    rw
      (
        map-append view (g x) (concat_map g xs),
        concat_map-append f (map view (g x)) (map view (concat_map g xs)),
        round x,
        concat_map-rounds f view g h round xs,
      )
      refl

pub list_of-docs_of : (ds : List Doc) → list_of (docs_of ds) ≡ ds
list_of-docs_of [] = refl
list_of-docs_of (d ∷ ds) = ap (λ t. d ∷ t) (list_of-docs_of ds)

pub map-rounds :
    {A B D N : Type 0} (f : N → B) (view : D → N) (g : A → D) (h : A → B)
    → ((a : A) → f (view (g a)) ≡ h a)
    → (xs : List A) → map f (map view (map g xs)) ≡ map h xs
map-rounds f view g h round [] = refl
map-rounds f view g h round (x ∷ xs) = rw (round x, map-rounds f view g h round xs) refl

pub response_ext :
    {a b : NormResponse}
    → a.model ≡ b.model
    → a.stop_reason ≡ b.stop_reason
    → a.content ≡ b.content
    → a.input_tokens ≡ b.input_tokens
    → a.output_tokens ≡ b.output_tokens
    → a ≡ b
response_ext m s c x y = λ i. record {
  model = m i;
  stop_reason = s i;
  content = c i;
  input_tokens = x i;
  output_tokens = y i;
}

module _ {j : Json} {p : Printing} (v : Views j p) where
  pub items_slice :
      (ds : List Doc) → j.items (v.view (some (slice ds))) ≡ map (λ d. v.view (some d)) ds
  items_slice ds =
      v.items_array (docs_of ds) ∙ ap (λ t. map (λ d. v.view (some d)) t) (list_of-docs_of ds)

  -- A count that `usage` holds.
  pub count_view :
      (u : Option Doc) (path : Text) (n : Int64)
      → has_doc u ≡ true
      → is_path path ≡ true
      → in_sight path u ≡ true
      → n < modulus
      → at path u ≡ some (int n)
      → count_at j (v.view u) path ≡ n
  count_view u path n has h k small e =
      rw (v.exists_view u, has, sub_at v u (some (int n)) path h k e) (v.int_int n small)

-- A tool call with a text for its arguments, after printing and reading.
abbrev pub clean_call : Json → Printing → Content → Content
clean_call j p c =
    tool_use (p.clean c.tool_id) (p.clean c.tool_name) (p.clean (ensure_json_object j c.tool_input))
