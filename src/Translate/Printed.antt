-- ===== src/Translate/Printed.antt =====
-- A stand-in for gjson: a node is a value or nothing, and every body is the text of one value. Within
-- a raw message it finds a null under every path.
use simple_api.Base.{
  refl, Bool, true, false, Option, none, some, List, [], map, if◌then◌else◌, Text,
}
use simple_api.Base.Int64.{Int64}
use simple_api.Json.{Kind, Json, is_null, is_string, is_json}
use simple_api.Translate.Doc.{Doc, null, bool, int, float, str, raw, array}
use simple_api.Translate.Views.{
  first_key, field_of, at, in_sight, list_of, has_doc, Printing, Views, Reads,
}

abbrev kind_of : Option Doc → Kind
kind_of (some (str s)) = is_string
kind_of (some (array ds)) = is_json
kind_of _ = is_null

abbrev string_of : Option Doc → Text
string_of (some (str s)) = s
string_of _ = []

abbrev int_in : Option Doc → Int64
int_in (some (int n)) = n
int_in _ = 0

abbrev float_in : Option Doc → Option Text
float_in (some (float t)) = t
float_in _ = none

abbrev bool_in : Option Doc → Bool
bool_in (some (bool b)) = b
bool_in _ = false

abbrev raw_in : Option Doc → Text
raw_in (some (raw t)) = t
raw_in _ = []

abbrev items_in : Option Doc → List (Option Doc)
items_in (some (array ds)) = map (λ d. some d) (list_of ds)
items_in _ = []

abbrev is_list : Option Doc → Bool
is_list (some (array ds)) = true
is_list _ = false

abbrev found : Text → Option Doc → Option Doc
unfolding first_key field_of
found path d = if in_sight path d then at path d else some null

abbrev pub printed : Doc → Json
unfolding first_key field_of
printed doc = record {
  Node = Option Doc;
  missing = none;
  get = λ body path. found path (some doc);
  sub = λ node path. found path node;
  exists = has_doc;
  kind = kind_of;
  string = string_of;
  int_of = int_in;
  bool_of = bool_in;
  float_of = float_in;
  is_array = is_list;
  items = items_in;
  raw = raw_in;
  float_equals = λ node v. false;
  valid = λ body. true;
  set_value = λ body path v. some body;
  set_raw = λ body path v. some body;
  delete_path = λ body path. some body;
}

abbrev pub as_is : Printing
as_is = record {
  clean = λ s. s;
  compact = λ s. s;
  is_number = λ s. true;
  clean_ascii = λ s h. refl;
  clean_empty = λ s. refl;
  compact_object = refl;
}

pub seen : (doc : Doc) → Views (printed doc) as_is
unfolding printed
seen doc = record {
  view = λ d. d;
  sub_view = λ d path h k. rw k refl;
  exists_view = λ d. refl;
  string_str = λ s. refl;
  string_null = refl;
  string_none = refl;
  kind_array = λ ds. refl;
  kind_str = λ s. refl;
  items_array = λ ds. refl;
  items_none = refl;
  int_int = λ n h. refl;
  bool_bool = λ b. refl;
  bool_none = refl;
  float_float = λ t h. refl;
  is_array_array = λ ds. refl;
  is_array_none = refl;
  raw_raw = λ t. refl;
}

pub seen-Reads : (doc : Doc) → Reads (seen doc) [] doc
unfolding printed seen
seen-Reads doc = record { at_path = λ path h k. rw k refl }
