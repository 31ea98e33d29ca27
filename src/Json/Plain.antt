-- ===== src/Json/Plain.antt =====
-- A stand-in for the JSON libraries: every field is there, is a string, and holds the document's own
-- text; a write gives the document back.
use simple_api.Base.{true, false, none, some, [], Text}
use simple_api.Json.{Json, is_string}

abbrev pub plain : Json
plain = record {
  Node = Text;
  missing = [];
  get = λ body path. body;
  sub = λ node path. node;
  exists = λ node. true;
  kind = λ node. is_string;
  string = λ node. node;
  int_of = λ node. 0;
  bool_of = λ node. false;
  float_of = λ node. none;
  is_array = λ node. false;
  items = λ node. [];
  raw = λ node. node;
  float_equals = λ node v. false;
  valid = λ body. true;
  set_value = λ body path v. some body;
  set_raw = λ body path v. some body;
  delete_path = λ body path. some body;
}
