-- ===== src/Json.antt =====
-- What the program uses of the JSON libraries gjson and sjson, which are not part of it: a
-- parameter of the modules that read or write JSON. Documents are texts.
pub mod Plain
use simple_api.Base.{Bool, true, false, Option, none, some, List, Text}
use simple_api.Base.Int64.{Int64}
use simple_api.Config.{Value}

-- `gjson.Type`.
pub data Kind : Type 0 where
  is_null is_false is_number is_string is_true is_json : Kind

abbrev pub is_kind : Kind → Kind → Bool
is_kind is_null is_null = true
is_kind is_false is_false = true
is_kind is_number is_number = true
is_kind is_string is_string = true
is_kind is_true is_true = true
is_kind is_json is_json = true
is_kind _ _ = false

pub record Json : Type 1 where
  -- `gjson.Result`
  pub Node : Type 0
  pub missing : Node
  -- `gjson.GetBytes`, and `Result.Get`
  pub get : Text → Text → Node
  pub sub : Node → Text → Node
  pub exists : Node → Bool
  pub kind : Node → Kind
  pub string : Node → Text
  pub int_of : Node → Int64
  pub bool_of : Node → Bool
  -- `Result.Float`, by the JSON text of the number; none is an infinity, which has no JSON text
  pub float_of : Node → Option Text
  pub is_array : Node → Bool
  -- the values that `ForEach` visits
  pub items : Node → List Node
  -- `Result.Raw`
  pub raw : Node → Text
  -- whether a value is a `float64` that the node's `Float()` equals
  pub float_equals : Node → Value → Bool
  -- `gjson.ValidBytes`
  pub valid : Text → Bool
  -- `sjson.SetBytes`, `sjson.SetRawBytes` and `sjson.DeleteBytes`; `none` is an error
  pub set_value : Text → Text → Value → Option Text
  pub set_raw : Text → Text → Text → Option Text
  pub delete_path : Text → Text → Option Text

-- A value of a result that may be an error.
abbrev pub or_keep : Text → Option Text → Text
or_keep body none = body
or_keep body (some out) = out
