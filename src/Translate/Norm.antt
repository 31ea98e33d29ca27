-- ===== src/Translate/Norm.antt =====
-- internal/translate/norm.go: the neutral view of requests and responses. The fields that no code sets
-- or reads (Raw, and the tool fields of a message) are left out.
use simple_api.Base.{Bool, false, Option, none, List, [], Text, codes}
use simple_api.Base.Int64.{Int64}

-- `normContent`.
pub record Content : Type 0 where
  pub type : Text
  pub text : Text
  pub image_media_type : Text
  pub image_data : Text
  pub tool_id : Text
  pub tool_name : Text
  pub tool_input : Text
  pub tool_result : Text
  pub is_error : Bool

abbrev pub no_content : Content
no_content = record {
  type = [];
  text = [];
  image_media_type = [];
  image_data = [];
  tool_id = [];
  tool_name = [];
  tool_input = [];
  tool_result = [];
  is_error = false;
}

abbrev pub text_content : Text → Content
text_content t = record no_content { type = codes "text"; text = t }

abbrev pub image_content : Text → Text → Content
image_content media b64 = record no_content {
  type = codes "image";
  image_media_type = media;
  image_data = b64;
}

abbrev pub tool_use : Text → Text → Text → Content
tool_use id name input = record no_content {
  type = codes "tool_use";
  tool_id = id;
  tool_name = name;
  tool_input = input;
}

abbrev pub tool_result_content : Text → Text → Content
tool_result_content id result = record no_content {
  type = codes "tool_result";
  tool_id = id;
  tool_result = result;
}

-- `normMessage`.
pub record Message : Type 0 where
  pub role : Text
  pub content : List Content

-- `normTool`.
pub record Tool : Type 0 where
  pub name : Text
  pub description : Text
  pub input_schema : Text

-- `normRequest`. A number pointer that is not nil may be an infinity, which has no JSON text.
pub record NormRequest : Type 0 where
  pub model : Text
  pub stream : Bool
  pub system : List Content
  pub messages : List Message
  pub tools : List Tool
  pub max_tokens : Int64
  pub temperature : Option (Option Text)
  pub top_p : Option (Option Text)
  pub stop : List Text

abbrev pub new_request : Text → Bool → NormRequest
new_request model stream = record {
  model = model;
  stream = stream;
  system = [];
  messages = [];
  tools = [];
  max_tokens = 0;
  temperature = none;
  top_p = none;
  stop = [];
}

-- `normResponse`, with its `normUsage`.
pub record NormResponse : Type 0 where
  pub model : Text
  pub stop_reason : Text
  pub content : List Content
  pub input_tokens : Int64
  pub output_tokens : Int64
