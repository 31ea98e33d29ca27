-- ===== src/Translate/Doc.antt =====
-- The values that the builders hand to `json.Marshal`: maps, slices, strings, numbers, null and raw
-- messages. An object stands with its fields in the order in which they are set; its text has them in
-- the order of their names.
use simple_api.Base.{
  Bool, true, false, ◌&&◌, Option, none, some, List, [], ◌∷◌, if◌then◌else◌, Text,
}
use simple_api.Base.Int64.{Int64}

mutual
  pub data Doc : Type 0 where
    null : Doc
    bool : Bool → Doc
    int : Int64 → Doc
    -- a float64 by its JSON text; none is an infinity
    float : Option Text → Doc
    str : Text → Doc
    -- `json.RawMessage`
    raw : Text → Doc
    array : Docs → Doc
    object : Fields → Doc

  pub data Docs : Type 0 where
    no_docs : Docs
    item : Doc → Docs → Docs

  pub data Fields : Type 0 where
    no_fields : Fields
    with_field : Text → Doc → Fields → Fields

abbrev pub docs_of : List Doc → Docs
docs_of [] = no_docs
docs_of (d ∷ ds) = item d (docs_of ds)

abbrev pub fields_of : List (Text × Doc) → Fields
fields_of [] = no_fields
fields_of ((k, d) ∷ fs) = with_field k d (fields_of fs)

abbrev pub slice : List Doc → Doc
slice ds = array (docs_of ds)

-- A map with the given entries.
abbrev pub map_of : List (Text × Doc) → Doc
map_of fs = object (fields_of fs)

-- An entry that is set under a condition.
abbrev pub set_if : Bool → Text → Doc → List (Text × Doc)
set_if true k d = (k, d) ∷ []
set_if false k d = []

abbrev pub set_some : Option (Option Text) → Text → List (Text × Doc)
set_some none k = []
set_some (some f) k = (k, float f) ∷ []

abbrev pub has_text : Option Text → Bool
has_text none = false
has_text (some t) = true

-- Whether `json.Marshal` succeeds: it takes every raw message, and no number is an infinity.
module _ (takes : Text → Bool) where
  unfoldable mutual
    pub marshals : Doc → Bool
    marshals null = true
    marshals (bool b) = true
    marshals (int n) = true
    marshals (float t) = has_text t
    marshals (str s) = true
    marshals (raw t) = takes t
    marshals (array ds) = marshals_docs ds
    marshals (object fs) = marshals_fields fs

    pub marshals_docs : Docs → Bool
    marshals_docs no_docs = true
    marshals_docs (item d ds) = marshals d && marshals_docs ds

    pub marshals_fields : Fields → Bool
    marshals_fields no_fields = true
    marshals_fields (with_field k d fs) = marshals d && marshals_fields fs

-- `json.Marshal`: the raw messages that it takes, and the text of a value that it can print.
pub record Marshal : Type 0 where
  pub takes : Text → Bool
  pub text : Doc → Text

-- `b, _ := json.Marshal(m)`: nil where it fails.
unfoldable pub bytes_of : Marshal → Doc → Text
unfolding marshals
bytes_of m d = if marshals m.takes d then m.text d else []
