-- ===== src/Config.antt =====
-- internal/config/config.go, helpers.go, validate.go and validate_payload.go, and
-- internal/protocol/protocol.go: the configuration, its defaults, and its validation.
pub mod Payload
pub mod Env
pub mod Expansion
pub mod Validate
pub mod Sound
pub mod Names
pub mod Selection
pub mod Atomic
pub mod Untouched
mod Tests
use simple_api.Base.{
  ℕ, ◌+◌, Bool, true, not, ◌||◌, Option, none, some, List, [], ◌∷◌, ◌++◌, eqb, if◌then◌else◌, ◌==◌,
  nat_eq, bool_eq, pair_eq, length, take, drop, is_empty, Text, codes, text_eq, index_byte,
}
use simple_api.Base.Dict.{Map, lookup}
use simple_api.Base.Int64.{Int64, positive}

abbrev pub anthropic : Text
anthropic = codes "anthropic"

abbrev pub openai_completion : Text
openai_completion = codes "openai_completion"

abbrev pub codex : Text
codex = codes "codex"

-- `protocol.IsValid`.
unfoldable pub is_valid_protocol : Text → Bool
is_valid_protocol p = p == anthropic || p == openai_completion || p == codex

pub record ServerConfig : Type 0 where
  pub listen : Option Text
  pub request_timeout_seconds : Option Int64
  pub stream_idle_timeout_seconds : Option Int64

abbrev pub get_or {ℓ} : {A : Type ℓ} → A → Option A → A
get_or d none = d
get_or d (some a) = a

abbrev pub request_timeout : ServerConfig → Int64
request_timeout s = get_or 600 s.request_timeout_seconds

abbrev pub stream_idle_timeout : ServerConfig → Int64
stream_idle_timeout s = get_or 0 s.stream_idle_timeout_seconds

pub record ProxyConfig : Type 0 where
  pub max_consecutive_failures : Option Int64
  pub failure_reset_seconds : Option Int64
  pub rewrite_response_model : Option Bool
  pub usage_statistics_enabled : Option Bool
  pub upstream_retry_status_codes : List Int64
  pub call_log_max_entries : Option Int64

abbrev pub max_failures : ProxyConfig → Int64
max_failures p = get_or 2 p.max_consecutive_failures

abbrev pub failure_reset : ProxyConfig → Int64
failure_reset p = get_or 300 p.failure_reset_seconds

abbrev pub rewrite_model : ProxyConfig → Bool
rewrite_model p = get_or true p.rewrite_response_model

abbrev pub usage_enabled : ProxyConfig → Bool
usage_enabled p = get_or true p.usage_statistics_enabled

abbrev pub retry_codes : ProxyConfig → List Int64
retry_codes p =
    if is_empty p.upstream_retry_status_codes
    then 408 ∷ 429 ∷ 500 ∷ 502 ∷ 503 ∷ 504 ∷ []
    else p.upstream_retry_status_codes

abbrev pub call_log_max : ProxyConfig → Int64
call_log_max p = get_or 1000 p.call_log_max_entries

pub record ManagementConfig : Type 0 where
  pub enabled : Option Bool
  pub base_path : Text
  pub admin_key : Text

abbrev pub management_enabled : ManagementConfig → Bool
management_enabled m = get_or true m.enabled

abbrev pub management_base : ManagementConfig → Text
management_base m = if not (is_empty m.base_path) then m.base_path else codes "/v0/management"

-- A decoded YAML value. `other` is a float, a list, a map or null, by its JSON text.
pub data Value : Type 0 where
  str : Text → Value
  bool : Bool → Value
  int : Int64 → Value
  other : Text → Value

pub record PayloadModelRule : Type 0 where
  pub name : Text
  pub protocol : Text
  pub from_protocol : Text
  pub headers : Map Text Text
  pub match_values : List (Map Text Value)
  pub not_match : List (Map Text Value)
  pub exist : List Text
  pub not_exist : List Text

pub record PayloadRule : Type 0 where
  pub models : List PayloadModelRule
  pub params : Map Text Value

pub record PayloadFilterRule : Type 0 where
  pub models : List PayloadModelRule
  pub params : List Text

pub record PayloadConfig : Type 0 where
  pub default : List PayloadRule
  pub default_raw : List PayloadRule
  pub override : List PayloadRule
  pub override_raw : List PayloadRule
  pub filter : List PayloadFilterRule

pub record ProviderModel : Type 0 where
  pub model : Text
  pub alias_a : Text

pub record Provider : Type 0 where
  pub name : Text
  pub type : Text
  pub url : Text
  pub urls : Map Text Text
  pub key : Text
  pub headers : Map Text Text
  pub max_concurrency : Option Int64
  pub models : List ProviderModel

pub record ClientModel : Type 0 where
  pub model : Text
  pub alias_b : Text
  pub priority : Int64

pub record ClientApiKey : Type 0 where
  pub name : Text
  pub key : Text
  pub enabled : Option Bool
  pub allowed_protocols : List Text
  pub models : List ClientModel

abbrev pub key_enabled : ClientApiKey → Bool
key_enabled k = get_or true k.enabled

-- `RequestArchiveConfig` is its one field, `archive_dir`.
pub record Config : Type 0 where
  pub version : Int64
  pub server : ServerConfig
  pub proxy : ProxyConfig
  pub management : ManagementConfig
  pub archive_dir : Text
  pub payload : PayloadConfig
  pub providers : List Provider
  pub api_keys : List ClientApiKey

-- Indexing a map of strings gives "" where the key is missing.
abbrev pub url_at : Text → Map Text Text → Text
url_at k m = get_or [] (lookup k m)

-- `UpstreamFor`: the upstream protocol and its base URL.
unfoldable pub upstream_for : (type url : Text) → Map Text Text → Text → Text × Text
upstream_for type url urls client =
    if not (is_empty (url_at client urls))
    then (client, url_at client urls)
    else if not (is_empty (url_at type urls))
    then (type, url_at type urls)
    else (type, url)

-- `ConcurrencyLimit`.
unfoldable pub positive_or_zero : Option Int64 → Int64
positive_or_zero none = 0
positive_or_zero (some n) = if positive n then n else 0

unfoldable pub concurrency_limit : Provider → Int64
unfolding positive_or_zero
concurrency_limit p = positive_or_zero p.max_concurrency

abbrev pub slash : ℕ
slash = 47

-- `EffectiveAliasA`.
abbrev pub effective_alias_a : ProviderModel → Text
effective_alias_a m = if not (is_empty m.alias_a) then m.alias_a else m.model

-- `ModelInternalID`.
unfoldable pub model_internal_id : Text → ProviderModel → Text
model_internal_id provider m = provider ++ slash ∷ effective_alias_a m

-- `ParseInternalModelID`. `none` is `ok == false`.
unfoldable pub split_at : Text → Option ℕ → Option (Text × Text)
split_at id none = none
split_at id (some i) =
    if eqb i 0 || eqb (i + 1) (length id) then none else some (take i id, drop (i + 1) id)

unfoldable pub parse_internal_model_id : Text → Option (Text × Text)
unfolding split_at
parse_internal_model_id id = split_at id (index_byte id slash)
