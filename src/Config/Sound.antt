-- ===== src/Config/Sound.antt =====
-- What a config without validation errors satisfies.
use simple_api.Base.{
  ℕ, suc, ◌≡◌, Bool, true, false, ◌&&◌, List, [], ◌∷◌, ◌++◌, arith, is_empty, All, append-eq-nil,
  Text, codes,
}
use simple_api.Config.{management_enabled, ClientModel, ClientApiKey, Config}
use simple_api.Config.Payload.{
  FieldPath, ValidationError, error_if, validate_payload, field, index_at,
}
use simple_api.Config.Validate.{
  member, add_name, check_providers, check_protocols, client_model_errors, check_client_models,
  key_name_errors, key_value_errors, key_errors, check_keys, no_listen, validate,
}

pub error_if-eq-nil :
    (b : Bool) (path : FieldPath) (code : Text) → error_if b path code ≡ [] → b ≡ false
error_if-eq-nil b path code h = ground arith

abbrev pub known_ids : Config → List Text
known_ids cfg = (check_providers 0 cfg.providers [] []).1

-- Each model of each key is not empty and is among the internal ids.
abbrev pub ModelKnown : List Text → ClientModel → Type 0
ModelKnown ids cm = member cm.model ids ≡ true

client_model_errors_sound :
    (at : FieldPath) (cm : ClientModel) (ids : List Text)
    → client_model_errors at cm ids ≡ []
    → ModelKnown ids cm
unfolding client_model_errors
client_model_errors_sound at cm ids h = ground arith

check_client_models_sound :
    (base : FieldPath) (j : ℕ) (cms : List ClientModel) (ids : List Text)
    → check_client_models base j cms ids ≡ []
    → All (ModelKnown ids) cms
check_client_models_sound base j [] ids h = tt
check_client_models_sound base j (cm ∷ cms) ids h =
    let at = base ++ field (codes "models") ∷ index_at j ∷ field (codes "model") ∷ [] in
    let (now, later) =
      append-eq-nil (client_model_errors at cm ids) (check_client_models base (suc j) cms ids)
        (unfold check_client_models in h) in
    (client_model_errors_sound at cm ids now, check_client_models_sound base (suc j) cms ids later)

-- What the errors of one key are made of.
key_errors-models :
    (base : FieldPath) (k : ClientApiKey) (names values ids : List Text)
    → key_errors base k names values ids ≡ []
    → check_client_models base 0 k.models ids ≡ []
unfolding key_errors
key_errors-models base k names values ids h =
    let models = check_client_models base 0 k.models ids in
    let protocols = check_protocols base 0 k.allowed_protocols in
    let value = key_value_errors (base ++ field (codes "key") ∷ []) k.key values in
    let name = key_name_errors (base ++ field (codes "name") ∷ []) k.name names in
    (append-eq-nil protocols models
      (append-eq-nil value (protocols ++ models)
        (append-eq-nil name (value ++ (protocols ++ models)) h).1).1).1

check_keys_sound :
    (i : ℕ) (ks : List ClientApiKey) (names values ids : List Text)
    → check_keys i ks names values ids ≡ []
    → All (λ k. All (ModelKnown ids) k.models) ks
check_keys_sound i [] names values ids h = tt
check_keys_sound i (k ∷ ks) names values ids h =
    let base = field (codes "api_keys") ∷ index_at i ∷ [] in
    let (now, later) =
      append-eq-nil (key_errors base k names values ids)
        (check_keys (suc i) ks (add_name k.name names) (add_name k.key values) ids)
        (unfold check_keys in h) in
    (
      check_client_models_sound base 0 k.models ids (key_errors-models base k names values ids now),
      check_keys_sound (suc i) ks (add_name k.name names) (add_name k.key values) ids later,
    )

-- The errors of the parts, in the order in which `Validate` appends them.
abbrev part_errors : (Text → Bool) → Config → List ValidationError
part_errors json_valid cfg =
    validate_payload json_valid cfg.payload
    ++ (error_if (no_listen cfg.server.listen)
          (field (codes "server") ∷ field (codes "listen") ∷ []) (codes "server_listen_required")
        ++ error_if (management_enabled cfg.management && is_empty cfg.management.admin_key)
            (field (codes "management") ∷ field (codes "admin_key") ∷ [])
            (codes "admin_key_required"))

pub validate-parts :
    (json_valid : Text → Bool) (cfg : Config)
    → validate json_valid cfg ≡ []
    → ((check_providers 0 cfg.providers [] []).0 ≡ [])
      × (check_keys 0 cfg.api_keys [] [] (known_ids cfg) ≡ [])
      × (part_errors json_valid cfg ≡ [])
validate-parts json_valid cfg h =
    let keys = check_keys 0 cfg.api_keys [] [] (known_ids cfg) in
    let (providers, rest) =
      append-eq-nil (check_providers 0 cfg.providers [] []).0 (keys ++ part_errors json_valid cfg)
        (unfold validate in h) in
    let (keys_ok, parts) = append-eq-nil keys (part_errors json_valid cfg) rest in
    (providers, keys_ok, parts)

pub keys_known :
    (json_valid : Text → Bool) (cfg : Config)
    → validate json_valid cfg ≡ []
    → All (λ k. All (ModelKnown (known_ids cfg)) k.models) cfg.api_keys
keys_known json_valid cfg h =
    check_keys_sound 0 cfg.api_keys [] [] (known_ids cfg) (validate-parts json_valid cfg h).1
