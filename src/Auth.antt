-- ===== src/Auth.antt =====
-- internal/auth/middleware.go, `PathProtocol` of internal/web/web.go and `AdminKeyAuth` of
-- internal/management/middleware.go.
pub mod Keys
mod Tests
use simple_api.Base.{
  ℕ, Bool, true, false, not, ◌||◌, Option, none, some, [], if◌then◌else◌, ◌==◌, nat_eq, bool_eq,
  pair_eq, drop, is_empty, Text, codes, text_eq, has_prefix,
}
use simple_api.Base.Dict.{lookup}
use simple_api.Config.{anthropic, openai_completion, codex, management_enabled, Config}
use simple_api.Indexes.{KeyContext, Indexes}

-- `PathProtocol`: the protocol, and whether the path is that of the list of models. none is
-- `ok == false`.
unfoldable pub path_protocol : Text → Option (Text × Bool)
path_protocol path =
    if path == codes "/v1/messages"
    then some (anthropic, false)
    else if path == codes "/v1/chat/completions"
    then some (openai_completion, false)
    else if path == codes "/v1/responses"
    then some (codex, false)
    else if path == codes "/v1/models"
    then some ([], true)
    else none

-- `extractToken`; `header` is `GetHeader`.
unfoldable pub extract_token : (Text → Text) → Text
extract_token header =
    if has_prefix (header (codes "Authorization")) (codes "Bearer ")
    then drop 7 (header (codes "Authorization"))
    else header (codes "x-api-key")

-- What `Middleware` does: it stores the protocol and the context of the key, or it aborts with an
-- error.
pub data Outcome : Type 0 where
  passed : Text → KeyContext → Outcome
  aborted : (status : ℕ) (code : Text) → Outcome

abbrev pub check_key : Text → Option KeyContext → Outcome
check_key protocol none = aborted 401 (codes "unauthorized")
check_key protocol (some kc) =
    if kc.disabled then aborted 401 (codes "api_key_disabled") else passed protocol kc

abbrev pub check_token : Indexes → Text → Text → Outcome
check_token idx protocol token =
    if is_empty token
    then aborted 401 (codes "unauthorized")
    else check_key protocol (lookup token idx.keys)

abbrev pub check_path : Indexes → Option (Text × Bool) → Text → Outcome
check_path idx none token = aborted 404 (codes "not_found")
check_path idx (some (protocol, is_models)) token = check_token idx protocol token

-- `Middleware`.
unfoldable pub authenticate : Indexes → Text → (Text → Text) → Outcome
unfolding path_protocol extract_token
authenticate idx path header = check_path idx (path_protocol path) (extract_token header)

-- `AdminKeyAuth`: whether the request is let through.
unfoldable pub admin_key_auth : Config → (Text → Text) → Bool
admin_key_auth cfg header =
    if not (management_enabled cfg.management)
    then false
    else if is_empty (header (codes "X-Admin-Key"))
        || (is_empty cfg.management.admin_key
            || not (header (codes "X-Admin-Key") == cfg.management.admin_key))
    then false
    else true
