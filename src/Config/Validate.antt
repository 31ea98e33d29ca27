-- ===== src/Config/Validate.antt =====
-- internal/config/validate.go: `Validate`.
use simple_api.Base.{
  ℕ, suc, Bool, true, false, not, ◌&&◌, ◌||◌, Option, none, some, List, [], ◌∷◌, ◌++◌,
  if◌then◌else◌, ◌==◌, nat_eq, bool_eq, pair_eq, is_empty, Text, codes, text_eq, contains_byte,
}
use simple_api.Base.Dict.{Map}
use simple_api.Base.Int64.{Int64, slt}
use simple_api.Config.{
  is_valid_protocol, management_enabled, ProviderModel, Provider, ClientModel, ClientApiKey, Config,
  upstream_for, slash, effective_alias_a, model_internal_id,
}
use simple_api.Config.Payload.{
  FieldPath, ValidationError, ve, error_if, validate_payload, field, index_at, named,
}

-- A `map[string]struct{}`, or a map of which only the keys are read.
abbrev pub member : Text → List Text → Bool
member t [] = false
member t (x ∷ xs) = x == t || member t xs

abbrev pub add_new : Text → List Text → List Text
add_new t xs = if member t xs then xs else t ∷ xs

-- One round of the loop over a provider's models.
unfoldable pub model_errors :
    FieldPath → Text → ProviderModel → (seen ids : List Text) → List ValidationError
unfolding model_internal_id
model_errors at provider m seen ids =
    error_if (is_empty m.model) (at ++ field (codes "model") ∷ []) (codes "model_required")
    ++ (error_if (member (effective_alias_a m) seen) (at ++ field (codes "aliasA") ∷ [])
          (codes "duplicate_aliasA")
        ++ error_if
            (not (is_empty provider)
              && not (is_empty m.model)
              && member (model_internal_id provider m) ids)
            (at ++ field (codes "aliasA") ∷ []) (codes "duplicate_internal_model"))

abbrev pub add_id : Text → ProviderModel → List Text → List Text
add_id provider m ids =
    if not (is_empty provider) && not (is_empty m.model)
    then add_new (model_internal_id provider m) ids
    else ids

-- The loop, from position `j` on: the errors, and the internal ids known behind it.
unfoldable pub check_models :
    FieldPath
    → Text
    → ℕ
    → List ProviderModel
    → (seen ids : List Text) → List ValidationError × List Text
unfolding model_errors
check_models base provider j [] seen ids = ([], ids)
check_models base provider j (m ∷ models) seen ids =
    let (errs, ids') =
      check_models base provider (suc j) models (add_new (effective_alias_a m) seen)
        (add_id provider m ids) in
    (
      model_errors (base ++ field (codes "models") ∷ index_at j ∷ []) provider m seen ids ++ errs,
      ids',
    )

unfoldable pub check_urls : FieldPath → Map Text Text → List ValidationError
unfolding is_valid_protocol
check_urls base [] = []
check_urls base ((pr, u) ∷ urls) =
    error_if (not (is_valid_protocol pr)) (base ++ field (codes "urls") ∷ named pr ∷ [])
      (codes "invalid_protocol")
    ++ check_urls base urls

abbrev pub is_negative : Option Int64 → Bool
is_negative none = false
is_negative (some n) = slt n 0

unfoldable pub name_errors : FieldPath → Text → List Text → List ValidationError
name_errors at name seen =
    if is_empty name
    then ve at (codes "provider_name_required") ∷ []
    else error_if (contains_byte name slash) at (codes "provider_name_slash")
      ++ error_if (member name seen) at (codes "duplicate_provider")

-- One round of the loop over the providers, less its models.
unfoldable pub provider_errors : FieldPath → Provider → List Text → List ValidationError
unfolding name_errors check_urls is_valid_protocol upstream_for
provider_errors base p seen =
    name_errors (base ++ field (codes "name") ∷ []) p.name seen
    ++ (error_if (is_empty (upstream_for p.type p.url p.urls p.type).1)
          (base ++ field (codes "url") ∷ []) (codes "provider_url_required")
        ++ (check_urls base p.urls
            ++ (error_if (not (is_valid_protocol p.type)) (base ++ field (codes "type") ∷ [])
                  (codes "invalid_provider_type")
                ++ error_if (is_negative p.max_concurrency)
                    (base ++ field (codes "max_concurrency") ∷ [])
                    (codes "invalid_max_concurrency"))))

abbrev pub add_name : Text → List Text → List Text
add_name t xs = if is_empty t then xs else add_new t xs

unfoldable pub check_providers :
    ℕ → List Provider → (seen ids : List Text) → List ValidationError × List Text
unfolding provider_errors check_models
check_providers i [] seen ids = ([], ids)
check_providers i (p ∷ ps) seen ids =
    let base = field (codes "providers") ∷ index_at i ∷ [] in
    let (model_errs, ids') = check_models base p.name 0 p.models [] ids in
    let (errs, ids'') = check_providers (suc i) ps (add_name p.name seen) ids' in
    (provider_errors base p seen ++ (model_errs ++ errs), ids'')

unfoldable pub check_protocols : FieldPath → ℕ → List Text → List ValidationError
unfolding is_valid_protocol
check_protocols base j [] = []
check_protocols base j (pr ∷ prs) =
    error_if (not (is_valid_protocol pr))
      (base ++ field (codes "allowed_protocols") ∷ index_at j ∷ []) (codes "invalid_protocol")
    ++ check_protocols base (suc j) prs

unfoldable pub client_model_errors : FieldPath → ClientModel → List Text → List ValidationError
client_model_errors at cm ids =
    if is_empty cm.model
    then ve at (codes "model_required") ∷ []
    else error_if (not (member cm.model ids)) at (codes "model_not_found")

unfoldable pub check_client_models :
    FieldPath → ℕ → List ClientModel → List Text → List ValidationError
unfolding client_model_errors
check_client_models base j [] ids = []
check_client_models base j (cm ∷ cms) ids =
    let at = base ++ field (codes "models") ∷ index_at j ∷ field (codes "model") ∷ [] in
    client_model_errors at cm ids ++ check_client_models base (suc j) cms ids

unfoldable pub key_name_errors : FieldPath → Text → List Text → List ValidationError
key_name_errors at name names =
    if is_empty name
    then ve at (codes "api_key_name_required") ∷ []
    else error_if (member name names) at (codes "duplicate_api_key_name")

unfoldable pub key_value_errors : FieldPath → Text → List Text → List ValidationError
key_value_errors at key values =
    error_if (not (is_empty key) && member key values) at (codes "duplicate_api_key")

unfoldable pub key_errors :
    FieldPath → ClientApiKey → (names values ids : List Text) → List ValidationError
unfolding key_name_errors key_value_errors check_protocols check_client_models
key_errors base k names values ids =
    key_name_errors (base ++ field (codes "name") ∷ []) k.name names
    ++ (key_value_errors (base ++ field (codes "key") ∷ []) k.key values
        ++ (check_protocols base 0 k.allowed_protocols ++ check_client_models base 0 k.models ids))

unfoldable pub check_keys :
    ℕ → List ClientApiKey → (names values ids : List Text) → List ValidationError
unfolding key_errors
check_keys i [] names values ids = []
check_keys i (k ∷ ks) names values ids =
    key_errors (field (codes "api_keys") ∷ index_at i ∷ []) k names values ids
    ++ check_keys (suc i) ks (add_name k.name names) (add_name k.key values) ids

abbrev pub no_listen : Option Text → Bool
no_listen none = true
no_listen (some t) = is_empty t

-- `Validate`, of a config that is not nil.
unfoldable pub validate : (Text → Bool) → Config → List ValidationError
unfolding check_providers check_keys validate_payload
validate json_valid cfg =
    let (errs, ids) = check_providers 0 cfg.providers [] [] in
    errs
    ++ (check_keys 0 cfg.api_keys [] [] ids
        ++ (validate_payload json_valid cfg.payload
            ++ (error_if (no_listen cfg.server.listen)
                  (field (codes "server") ∷ field (codes "listen") ∷ [])
                  (codes "server_listen_required")
                ++ error_if (management_enabled cfg.management && is_empty cfg.management.admin_key)
                    (field (codes "management") ∷ field (codes "admin_key") ∷ [])
                    (codes "admin_key_required"))))
