-- ===== src/Management/Reads.antt =====
-- internal/management: the handlers that only read, and how a request body is decoded.
use simple_api.Base.{
  ◌+◌, Bool, ◌&&◌, ◌||◌, Option, none, some, List, [], ◌∷◌, map, ltb, leb, eqb, if◌then◌else◌, ◌==◌,
  nat_eq, bool_eq, pair_eq, all, Text, codes, text_eq, has_suffix,
}
use simple_api.Base.Dict.{Map, lookup}
use simple_api.Base.Spaces.{trim_space}
use simple_api.Base.Int64.{Int64, positive}
use simple_api.Config.{PayloadConfig, Provider, ClientApiKey, Config}
use simple_api.Config.Payload.{ValidationError}
use simple_api.Config.Validate.{validate}
use simple_api.Indexes.{ResolvedModel, Indexes}
use simple_api.CallLog
use simple_api.Config.Env.{expand}
use simple_api.Management.{State, Outside, expanded}

-- `getConfig` and `getPayload`, `listProviders` and `listAPIKeys`.
abbrev pub get_config : Outside → State → Config
get_config out s = out.deep_copy s.raw

abbrev pub get_payload : State → PayloadConfig
get_payload s = s.raw.payload

abbrev pub list_providers : Outside → State → List Provider
list_providers out s = (out.deep_copy s.raw).providers

abbrev pub list_api_keys : Outside → State → List ClientApiKey
list_api_keys out s = (out.deep_copy s.raw).api_keys

-- The first entry that the test holds for; none is answered with 404.
unfoldable pub first {ℓ} : {A : Type ℓ} → (A → Bool) → List A → Option A
first p [] = none
first p (x ∷ xs) = let rest = first p xs in if p x then some x else rest

-- `getProvider` and `getAPIKey`.
unfoldable pub get_provider : Text → State → Option Provider
unfolding first
get_provider name s = first (λ (p : Provider). p.name == name) s.raw.providers

unfoldable pub get_api_key : Text → State → Option ClientApiKey
unfolding first
get_api_key name s = first (λ (k : ClientApiKey). k.name == name) s.raw.api_keys

-- `validate`, on a decoded body: the errors, or 400.
unfoldable pub validate_body : Outside → Option Config → Option (List ValidationError)
unfolding expand
validate_body out none = none
validate_body out (some cfg) = some (validate out.json_valid (expanded out cfg))

abbrev pub put_before {ℓ} : {A : Type ℓ} → Option A → Option (List A) → Option (List A)
put_before (some x) (some xs) = some (x ∷ xs)
put_before _ _ = none

-- The entries of the models; none where one is missing, which panics.
unfoldable pub models_of : Map Text ResolvedModel → List Text → Option (List ResolvedModel)
unfolding lookup
models_of models [] = some []
models_of models (id ∷ ids) = put_before (lookup id models) (models_of models ids)

-- `listModels`.
unfoldable pub list_models : Indexes → Option (List ResolvedModel)
unfolding models_of
list_models idx = models_of idx.models idx.internal_ids

-- The limit of `getCallLog`, of what `strconv.Atoi` makes of the query's; none is an error.
abbrev pub positive_or : Int64 → Option Int64 → Int64
positive_or limit none = limit
positive_or limit (some n) = if positive n then n else limit

unfoldable pub call_log_limit : (Text → Option Int64) → Text → Int64
call_log_limit atoi query = if query == [] then 100 else positive_or 100 (atoi query)

-- `getCallLog`.
unfoldable pub get_call_log :
    (Text → Option Int64) → Text → CallLog.Recorder → List (Option (Option CallLog.Entry))
unfolding call_log_limit CallLog.recent
get_call_log atoi query log = CallLog.recent log (call_log_limit atoi query)

abbrev before_semicolon : Text → Text
before_semicolon [] = []
before_semicolon (c ∷ s) = if eqb c b';' then [] else c ∷ before_semicolon s

-- `strings.ToLower`; `lower_runes` is what it makes of a text that is not ASCII.
abbrev to_lower : (Text → Text) → Text → Text
to_lower lower_runes s =
    if all (λ c. ltb c 128) s
    then map (λ c. if leb b'A' c && leb c b'Z' then c + 32 else c) s
    else lower_runes s

-- `requestMIME`.
unfoldable pub request_mime : (Text → Text) → Text → Text
unfolding trim_space
request_mime lower_runes content_type =
    to_lower lower_runes (trim_space (before_semicolon content_type))

abbrev pub is_yaml : Text → Bool
is_yaml ct =
    ct == codes "application/yaml" || (ct == codes "application/x-yaml" || ct == codes "text/yaml")

abbrev pub is_json_type : Text → Bool
is_json_type ct = ct == codes "application/json" || has_suffix ct (codes "+json")

-- `decode` into a value. The libraries take the value as it is: YAML gives none on an error, and JSON
-- gives the value as it stands in the end, and whether there was no error.
unfoldable pub decode {ℓ} :
    {A : Type ℓ}
    → (yaml : Text → A → Option A) → (json : Text → A → A × Bool) → Text
    → Text
    → A
    → Option A
decode yaml json ct body dst =
    if is_yaml ct
    then yaml body dst
    else if (json body dst).1
    then some (json body dst).0
    else if is_json_type ct
    then none
    else yaml body (json body dst).0
