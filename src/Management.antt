-- ===== src/Management.antt =====
-- internal/management: apply.go, apikeys.go, providers.go and the handlers of handlers.go that change
-- the config, over the swappable state of internal/runtime/runtime.go.
pub mod Commit
pub mod Sequences
pub mod Panics
pub mod Reads
pub mod Listing
mod Tests
use simple_api.Base.{
  ℕ, suc, ◌+◌, Bool, true, false, not, Option, none, some, option_map, List, [], ◌∷◌, ◌++◌, ltb,
  if◌then◌else◌, ◌==◌, nat_eq, bool_eq, pair_eq, length, set, take, drop, is_empty, any, Text,
  codes, text_eq,
}
use simple_api.Config.{PayloadConfig, Provider, ClientApiKey, Config, parse_internal_model_id}
use simple_api.Config.Env.{expand}
use simple_api.Config.Payload.{ValidationError}
use simple_api.Config.Validate.{validate}
use simple_api.Indexes.{Indexes, candidate, build}

-- `Snapshot`, with the bytes of the config file.
pub record State : Type 0 where
  pub raw : Config
  pub cfg : Config
  pub indexes : Indexes
  pub file : Text

-- The system and the libraries. `deep_copy` is the round trip through YAML that `DeepCopy` makes;
-- `marshal` and `decode` are those of the YAML library, and none is an error.
pub record Outside : Type 0 where
  pub deep_copy : Config → Config
  pub json_valid : Text → Bool
  pub getenv : Text → Option Text
  pub marshal : Config → Option Text
  pub decode : Text → Option Config

pub data Response : Type 0 where
  -- a status, with a result that is valid
  done : ℕ → Response
  -- 422 with the errors
  invalid : List ValidationError → Response
  -- an error envelope: its status and code
  refused : ℕ → Text → Response
  -- a write out of range, which gin's recovery answers with 500
  panicked : Response

-- Where the first entry is that the test holds for.
abbrev pub position {ℓ} : {A : Type ℓ} → (A → Bool) → List A → Option ℕ
position p [] = none
position p (x ∷ xs) = if p x then some 0 else option_map suc (position p xs)

-- `apiKeyIndex` and `providerIndex`; none is -1.
unfoldable pub api_key_index : Config → Text → Option ℕ
api_key_index cfg name = position (λ (k : ClientApiKey). k.name == name) cfg.api_keys

unfoldable pub provider_index : Config → Text → Option ℕ
provider_index cfg name = position (λ (p : Provider). p.name == name) cfg.providers

-- Writing and cutting out an entry, which panic out of range.
abbrev pub set_at {ℓ} : {A : Type ℓ} → List A → ℕ → A → Option (List A)
set_at xs i v = if ltb i (length xs) then some (set xs i v) else none

abbrev pub cut_at {ℓ} : {A : Type ℓ} → List A → Option ℕ → Option (List A)
cut_at xs none = none
cut_at xs (some i) = if ltb i (length xs) then some (take i xs ++ drop (i + 1) xs) else none

abbrev pub with_keys : Config → List ClientApiKey → Config
with_keys raw ks = record raw { api_keys = ks }

abbrev pub with_providers : Config → List Provider → Config
with_providers raw ps = record raw { providers = ps }

-- The expanded copy that the handlers work on.
abbrev pub expanded : Outside → Config → Config
expanded out raw = expand out.getenv (out.deep_copy raw)

-- `writable` is whether the atomic write of the config file succeeds.
module _ (out : Outside) (writable : Bool) where
  abbrev pub replace_with : Config → Option Indexes → State → Bool × (Response × State)
  replace_with raw none s = (false, (refused 500 (codes "internal_error"), s))
  replace_with raw (some idx) s =
      (true, (done 200, record s { raw = raw; cfg = expanded out raw; indexes = idx }))

  abbrev pub write_file : Config → Option Text → State → Bool × (Response × State)
  write_file raw none s = (false, (refused 500 (codes "internal_error"), s))
  write_file raw (some bytes) s =
      if not writable
      then (false, (refused 500 (codes "internal_error"), s))
      else replace_with raw (build (expanded out raw)) (record s { file = bytes })

  -- `applyAndCommit`: what it returns, the response (its own, if it returns false), and the state.
  unfoldable pub apply_and_commit : Config → State → Bool × (Response × State)
  unfolding expand
  apply_and_commit raw s =
      if not (is_empty (validate out.json_valid (expanded out raw)))
      then (false, (invalid (validate out.json_valid (expanded out raw)), s))
      else write_file raw (out.marshal raw) s

  abbrev pub respond : ℕ → Bool × (Response × State) → Response × State
  respond status (true, (response, s)) = (done status, s)
  respond status (false, (response, s)) = (response, s)

  abbrev pub commit_if : ℕ → Option Config → State → Response × State
  commit_if status none s = (panicked, s)
  commit_if status (some candidate) s = respond status (apply_and_commit candidate s)

  -- `mutateRaw`; `mutate` gives none where it panics.
  unfoldable pub mutate_raw : ℕ → (Config → Option Config) → State → Response × State
  unfolding apply_and_commit
  mutate_raw status mutate s = commit_if status (mutate (out.deep_copy s.raw)) s

  abbrev pub bad_request : Response
  bad_request = refused 400 (codes "invalid_request")

  abbrev pub not_found : Response
  not_found = refused 404 (codes "not_found")

  -- The handlers that change the config, on a decoded body (none is an error of `decodeBody`).
  -- `seen` is the raw config of the snapshot that a handler searches, which is taken before that of
  -- `mutateRaw`.
  unfoldable pub put_config : Option Config → State → Response × State
  put_config none s = (bad_request, s)
  put_config (some cfg) s = respond 200 (apply_and_commit cfg s)

  unfoldable pub put_payload : Option PayloadConfig → State → Response × State
  put_payload none s = (bad_request, s)
  put_payload (some pc) s = mutate_raw 200 (λ raw. some (record raw { payload = pc })) s

  unfoldable pub create_api_key : Option ClientApiKey → State → Response × State
  create_api_key none s = (bad_request, s)
  create_api_key (some k) s =
      mutate_raw 201 (λ raw. some (with_keys raw (raw.api_keys ++ k ∷ []))) s

  abbrev pub put_key_at : Option ℕ → ClientApiKey → State → Response × State
  put_key_at none k s = (not_found, s)
  put_key_at (some i) k s =
      mutate_raw 200 (λ raw. option_map (with_keys raw) (set_at raw.api_keys i k)) s

  unfoldable pub put_api_key : Text → Option ClientApiKey → Config → State → Response × State
  unfolding api_key_index
  put_api_key name none seen s = (bad_request, s)
  put_api_key name (some k) seen s = put_key_at (api_key_index seen name) k s

  abbrev pub delete_key_if : Option ℕ → Text → State → Response × State
  delete_key_if none name s = (not_found, s)
  delete_key_if (some i) name s =
      mutate_raw 204
        (λ raw. option_map (with_keys raw) (cut_at raw.api_keys (api_key_index raw name))) s

  unfoldable pub delete_api_key : Text → Config → State → Response × State
  delete_api_key name seen s = delete_key_if (api_key_index seen name) name s

  unfoldable pub create_provider : Option Provider → State → Response × State
  create_provider none s = (bad_request, s)
  create_provider (some p) s =
      mutate_raw 201 (λ raw. some (with_providers raw (raw.providers ++ p ∷ []))) s

  abbrev pub put_provider_at : Option ℕ → Provider → State → Response × State
  put_provider_at none p s = (not_found, s)
  put_provider_at (some i) p s =
      mutate_raw 200 (λ raw. option_map (with_providers raw) (set_at raw.providers i p)) s

  unfoldable pub put_provider : Text → Option Provider → Config → State → Response × State
  unfolding provider_index
  put_provider name none seen s = (bad_request, s)
  put_provider name (some p) seen s = put_provider_at (provider_index seen name) p s

  abbrev pub names : Text → Option (Text × Text) → Bool
  names provider none = false
  names provider (some (prov, alias)) = prov == provider

  -- The loop over the keys and their models that finds a reference to the provider.
  unfoldable pub in_use : Text → List ClientApiKey → Bool
  in_use name ks = any (λ k. any (λ m. names name (parse_internal_model_id m.model)) k.models) ks

  abbrev pub delete_provider_if : Option ℕ → Text → Config → State → Response × State
  delete_provider_if none name seen s = (not_found, s)
  delete_provider_if (some i) name seen s =
      if in_use name seen.api_keys
      then (refused 422 (codes "provider_in_use"), s)
      else mutate_raw 204
          (λ raw. option_map (with_providers raw) (cut_at raw.providers (provider_index raw name)))
          s

  unfoldable pub delete_provider : Text → Config → State → Response × State
  unfolding in_use
  delete_provider name seen s = delete_provider_if (provider_index seen name) name seen s

  abbrev pub reload_indexes : Config → Option Indexes → State → Response × State
  reload_indexes raw none s = (refused 500 (codes "internal_error"), s)
  reload_indexes raw (some idx) s =
      (done 200, record s { raw = raw; cfg = expanded out raw; indexes = idx })

  abbrev pub reload_with : Option Config → State → Response × State
  reload_with none s = (refused 500 (codes "internal_error"), s)
  reload_with (some raw) s =
      if not (is_empty (validate out.json_valid (expanded out raw)))
      then (invalid (validate out.json_valid (expanded out raw)), s)
      else reload_indexes raw (build (expanded out raw)) s

  -- `reload`.
  unfoldable pub reload : State → Response × State
  reload s = reload_with (out.decode s.file) s
