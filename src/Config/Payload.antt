-- ===== src/Config/Payload.antt =====
-- internal/config/validate_payload.go. An error keeps its code and its path; the path is a list of
-- segments in place of the string that they print, and the message is left out.
use simple_api.Base.{
  ℕ, suc, Bool, true, false, not, ◌&&◌, ◌||◌, List, [], ◌∷◌, ◌++◌, eqb, if◌then◌else◌, ◌==◌, nat_eq,
  bool_eq, pair_eq, is_empty, Text, codes, text_eq,
}
use simple_api.Base.Dict.{Map}
use simple_api.Config.{
  is_valid_protocol, Value, PayloadModelRule, PayloadRule, PayloadFilterRule, PayloadConfig, str,
}

pub data Segment : Type 0 where
  field : Text → Segment
  index_at : ℕ → Segment
  named : Text → Segment

abbrev pub FieldPath : Type 0
FieldPath = List Segment

-- `ValidationError`.
pub record ValidationError : Type 0 where
  pub path : FieldPath
  pub code : Text

abbrev pub ve : FieldPath → Text → ValidationError
ve path code = record { path = path; code = code }

abbrev pub error_if : Bool → FieldPath → Text → List ValidationError
error_if b path code = if b then ve path code ∷ [] else []

-- `firstPathSegment`.
unfoldable pub first_path_segment : Text → Text
first_path_segment [] = []
first_path_segment (c ∷ path) = if eqb c b'.' || eqb c b'[' then [] else c ∷ first_path_segment path

abbrev pub targets_model : Text → Bool
targets_model path = first_path_segment path == codes "model"

-- `validateModelRules`, from position `j` on.
unfoldable pub validate_model_rules : FieldPath → ℕ → List PayloadModelRule → List ValidationError
unfolding is_valid_protocol
validate_model_rules base j [] = []
validate_model_rules base j (r ∷ rules) =
    let at = base ++ field (codes "models") ∷ index_at j ∷ [] in
    error_if (is_empty r.name) (at ++ field (codes "name") ∷ [])
      (codes "payload_model_name_required")
    ++ (error_if (not (is_empty r.protocol) && not (is_valid_protocol r.protocol))
          (at ++ field (codes "protocol") ∷ []) (codes "invalid_protocol")
        ++ (error_if (not (is_empty r.from_protocol) && not (is_valid_protocol r.from_protocol))
              (at ++ field (codes "from-protocol") ∷ []) (codes "invalid_protocol")
            ++ validate_model_rules base (suc j) rules))

-- `json.Valid` is the parameter `json_valid`.
module _ (json_valid : Text → Bool) where
  abbrev pub bad_raw : Value → Bool
  bad_raw (str s) = not (json_valid s)
  bad_raw _ = true

  unfoldable pub check_params : FieldPath → Bool → Map Text Value → List ValidationError
  unfolding first_path_segment
  check_params base raw [] = []
  check_params base raw ((path, val) ∷ params) =
      let at = base ++ field (codes "params") ∷ named path ∷ [] in
      (if targets_model path
        then ve at (codes "model_field_protected") ∷ []
        else error_if (raw && bad_raw val) at (codes "invalid_raw_json"))
      ++ check_params base raw params

  -- The closure `checkRules`, from position `i` on.
  unfoldable pub check_rules : Text → Bool → ℕ → List PayloadRule → List ValidationError
  unfolding validate_model_rules check_params
  check_rules phase raw i [] = []
  check_rules phase raw i (r ∷ rules) =
      let base = field (codes "payload") ∷ field phase ∷ index_at i ∷ [] in
      validate_model_rules base 0 r.models
      ++ (check_params base raw r.params ++ check_rules phase raw (suc i) rules)

  unfoldable pub check_filter_params : FieldPath → List Text → List ValidationError
  unfolding first_path_segment
  check_filter_params base [] = []
  check_filter_params base (path ∷ params) =
      error_if (targets_model path) (base ++ field (codes "params") ∷ [])
        (codes "model_field_protected")
      ++ check_filter_params base params

  unfoldable pub check_filters : ℕ → List PayloadFilterRule → List ValidationError
  unfolding validate_model_rules check_filter_params
  check_filters i [] = []
  check_filters i (r ∷ rules) =
      let base = field (codes "payload") ∷ field (codes "filter") ∷ index_at i ∷ [] in
      validate_model_rules base 0 r.models
      ++ (check_filter_params base r.params ++ check_filters (suc i) rules)

  -- `validatePayload`.
  unfoldable pub validate_payload : PayloadConfig → List ValidationError
  unfolding check_rules check_filters
  validate_payload pc =
      check_rules (codes "default") false 0 pc.default
      ++ (check_rules (codes "default-raw") true 0 pc.default_raw
          ++ (check_rules (codes "override") false 0 pc.override
              ++ (check_rules (codes "override-raw") true 0 pc.override_raw
                  ++ check_filters 0 pc.filter)))
