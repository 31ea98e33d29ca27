-- ===== src/Translate/Marshals.antt =====
-- When `json.Marshal` fails on what a builder makes, so that the body is nil.
pub mod Anthropic
pub mod Openai
pub mod Codex
use simple_api.Base.{
  ◌≡◌, refl, sym, ap, ◌∙◌, Bool, true, false, ◌&&◌, Option, none, some, List, [], ◌∷◌, ◌++◌, map,
  if◌then◌else◌, ◌==◌, nat_eq, bool_eq, pair_eq, all, Text, codes, text_eq,
}
use simple_api.Translate.Doc.{
  Doc, docs_of, fields_of, slice, set_if, set_some, has_text, marshals, marshals_docs,
  marshals_fields, bool, str,
}
use simple_api.Translate.Norm.{Content, tool_use, Message, Tool, NormRequest}
use simple_api.Translate.Helpers.{concat_map, raw_text, has_items}

pub and-true : (b : Bool) → (b && true) ≡ b
and-true true = refl
and-true false = refl

pub and_assoc : (a b c : Bool) → ((a && b) && c) ≡ (a && (b && c))
and_assoc true b c = refl
and_assoc false b c = refl

pub all-true : {A : Type 0} (xs : List A) → all (λ x. true) xs ≡ true
all-true [] = refl
all-true (x ∷ xs) = all-true xs

-- The raw message of a tool's input, of a tool's schema, and a number.
abbrev pub takes_input : (Text → Bool) → Content → Bool
takes_input takes c = if c.type == codes "tool_use" then takes (raw_text c.tool_input) else true

abbrev pub takes_schema : (Text → Bool) → Tool → Bool
takes_schema takes t = takes (raw_text t.input_schema)

abbrev pub is_finite : Option (Option Text) → Bool
is_finite none = true
is_finite (some f) = has_text f

abbrev pub takes_numbers : NormRequest → Bool
takes_numbers nr = is_finite nr.temperature && is_finite nr.top_p

abbrev pub takes_message : (Text → Bool) → Message → Bool
takes_message takes m = all (takes_input takes) m.content

module _ (takes : Text → Bool) where
  pub docs_lem : (ds : List Doc) → marshals_docs takes (docs_of ds) ≡ all (marshals takes) ds
  unfolding marshals
  docs_lem [] = refl
  docs_lem (d ∷ ds) = ap (λ b. marshals takes d && b) (docs_lem ds)

  -- The values of some entries.
  abbrev pub entries : List (Text × Doc) → Bool
  entries fs = marshals_fields takes (fields_of fs)

  pub entries-append : (fs gs : List (Text × Doc)) → entries (fs ++ gs) ≡ (entries fs && entries gs)
  unfolding marshals
  entries-append [] gs = refl
  entries-append ((k, d) ∷ fs) gs =
      ap (λ b. marshals takes d && b) (entries-append fs gs)
      ∙ sym (and_assoc (marshals takes d) (entries fs) (entries gs))

  pub both_lem :
      {a b : Bool} (fs gs : List (Text × Doc))
      → entries fs ≡ a
      → entries gs ≡ b
      → entries (fs ++ gs) ≡ (a && b)
  both_lem fs gs p q = entries-append fs gs ∙ (λ i. p i && q i)

  pub all-append :
      (ds es : List Doc)
      → all (marshals takes) (ds ++ es) ≡ (all (marshals takes) ds && all (marshals takes) es)
  all-append [] es = refl
  all-append (d ∷ ds) es =
      ap (λ b. marshals takes d && b) (all-append ds es)
      ∙ sym (and_assoc (marshals takes d) (all (marshals takes) ds) (all (marshals takes) es))

  -- A list whose elements give values.
  pub rounds_lem :
      {A : Type 0} (g : A → List Doc) (ok : A → Bool)
      → ((a : A) → all (marshals takes) (g a) ≡ ok a)
      → (xs : List A) → all (marshals takes) (concat_map g xs) ≡ all ok xs
  unfolding concat_map
  rounds_lem g ok round [] = refl
  rounds_lem g ok round (x ∷ xs) =
      rw (all-append (g x) (concat_map g xs), round x, rounds_lem g ok round xs) refl

  pub each_lem :
      {A : Type 0} (g : A → Doc) (ok : A → Bool)
      → ((a : A) → marshals takes (g a) ≡ ok a)
      → (xs : List A) → all (marshals takes) (map g xs) ≡ all ok xs
  each_lem g ok round [] = refl
  each_lem g ok round (x ∷ xs) = rw (round x, each_lem g ok round xs) refl

  pub set_some_lem : (f : Option (Option Text)) (k : Text) → entries (set_some f k) ≡ is_finite f
  unfolding marshals
  set_some_lem none k = refl
  set_some_lem (some f) k = and-true (has_text f)

  pub strings_lem : (ts : List Text) → marshals takes (slice (map str ts)) ≡ true
  unfolding marshals
  strings_lem [] = refl
  strings_lem (t ∷ ts) = strings_lem ts

  pub set_if_lem :
      (b : Bool) (k : Text) (d : Doc) → marshals takes d ≡ true → entries (set_if b k d) ≡ true
  unfolding marshals
  set_if_lem true k d h = rw h refl
  set_if_lem false k d h = refl

  pub slice_lem :
      {A : Type 0} (g : A → Doc) (ok : A → Bool)
      → ((a : A) → marshals takes (g a) ≡ ok a)
      → (xs : List A) → marshals takes (slice (map g xs)) ≡ all ok xs
  unfolding marshals
  slice_lem g ok round xs = docs_lem (map g xs) ∙ each_lem g ok round xs

  pub tools_lem :
      (g : Tool → Doc)
      → ((t : Tool) → marshals takes (g t) ≡ takes_schema takes t)
      → (ts : List Tool)
      → entries (set_if (has_items ts) (codes "tools") (slice (map g ts)))
        ≡ all (takes_schema takes) ts
  unfolding marshals
  tools_lem g round [] = refl
  tools_lem g round (t ∷ ts) =
      and-true (marshals takes (slice (map g (t ∷ ts))))
      ∙ slice_lem g (takes_schema takes) round (t ∷ ts)

  pub numbers_lem :
      (nr : NormRequest) (gs : List (Text × Doc)) (b : Bool)
      → entries gs ≡ b
      → entries (
          set_if nr.stream (codes "stream") (bool true)
          ++ (set_some nr.temperature (codes "temperature")
              ++ (set_some nr.top_p (codes "top_p") ++ gs)))
        ≡ (takes_numbers nr && b)
  unfolding marshals
  numbers_lem nr gs b h =
      both_lem (set_if nr.stream (codes "stream") (bool true)) _
        (set_if_lem nr.stream (codes "stream") (bool true) refl)
        (both_lem (set_some nr.temperature (codes "temperature")) _
          (set_some_lem nr.temperature (codes "temperature"))
          (both_lem (set_some nr.top_p (codes "top_p")) gs (set_some_lem nr.top_p (codes "top_p"))
            h))
      ∙ sym (and_assoc (is_finite nr.temperature) (is_finite nr.top_p) b)

  pub if_lem :
      (b : Bool) (d e : Doc)
      → marshals takes d ≡ true
      → marshals takes e ≡ true
      → marshals takes (if b then d else e) ≡ true
  if_lem true d e p q = p
  if_lem false d e p q = q
