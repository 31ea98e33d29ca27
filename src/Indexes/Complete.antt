-- ===== src/Indexes/Complete.antt =====
-- `Build` succeeds on every config that `Validate` accepts.
use simple_api.Base.{
  ℕ, suc, ◌≡◌, refl, ◌≢◌, inl, inr, Bool, true, not, ◌&&◌, none, some, List, [], ◌∷◌, ◌++◌, arith,
  Bool-cases, Option-cases, nat_eq, bool_eq, pair_eq, is_empty, All, Text, codes, text_eq,
}
use simple_api.Base.Dict.{Map, lookup, insert, lookup-insert}
use simple_api.Config.{
  ProviderModel, Provider, ClientModel, ClientApiKey, Config, effective_alias_a, model_internal_id,
}
use simple_api.Config.Payload.{FieldPath, field, index_at}
use simple_api.Config.Validate.{
  member, add_new, add_id, check_models, add_name, check_providers, validate,
}
use simple_api.Config.Sound.{known_ids, ModelKnown, keys_known}
use simple_api.Indexes.{
  ResolvedModel, KeyContext, Indexes, provider_entry, resolved_model, add_models, add_providers,
  candidate, add_candidate, add_client_models, empty_key, sort_key, build_key, add_keys, no_indexes,
  build,
}

-- Every listed id has a model.
abbrev Covers : List Text → Map Text ResolvedModel → Type 0
Covers ids models = (t : Text) → member t ids ≡ true → lookup t models ≢ none

Covers-insert :
    (ids : List Text) (models : Map Text ResolvedModel) (id : Text) (rm : ResolvedModel)
    → Covers ids models
    → Covers ids (insert id rm models)
Covers-insert ids models id rm c t h = rw (lookup-insert id t rm models) (ground (arith, c t))

Covers-add :
    (ids : List Text) (models : Map Text ResolvedModel) (id : Text) (rm : ResolvedModel)
    → Covers ids models
    → Covers (add_new id ids) (insert id rm models)
Covers-add ids models id rm c t h = rw (lookup-insert id t rm models) (ground (arith, c t))

Covers-add_id :
    (p : Provider) (m : ProviderModel) (ids : List Text) (models : Map Text ResolvedModel)
    → Covers ids models
    → Covers (add_id p.name m ids) (insert (model_internal_id p.name m) (resolved_model p m) models)
Covers-add_id p m ids models c =
    elim (Bool-cases (not (is_empty p.name) && not (is_empty m.model))) [
      | inl full ↦
          rw full (Covers-add ids models (model_internal_id p.name m) (resolved_model p m) c)
      | inr bare ↦
          rw bare (Covers-insert ids models (model_internal_id p.name m) (resolved_model p m) c)
    ]

add_models-Covers :
    (base : FieldPath) (p : Provider) (j : ℕ) (ms : List ProviderModel) (seen ids : List Text)
    (idx : Indexes)
    → Covers ids idx.models
    → Covers (check_models base p.name j ms seen ids).1 (add_models p ms idx).models
unfolding check_models add_models
add_models-Covers base p j [] seen ids idx c = c
add_models-Covers base p j (m ∷ ms) seen ids idx c =
    add_models-Covers base p (suc j) ms (add_new (effective_alias_a m) seen) (add_id p.name m ids)
      (record idx {
        models = insert (model_internal_id p.name m) (resolved_model p m) idx.models;
        internal_ids = idx.internal_ids ++ model_internal_id p.name m ∷ [];
      })
      (Covers-add_id p m ids idx.models c)

add_providers-Covers :
    (i : ℕ) (ps : List Provider) (seen ids : List Text) (idx : Indexes)
    → Covers ids idx.models
    → Covers (check_providers i ps seen ids).1 (add_providers ps idx).models
unfolding check_providers add_providers
add_providers-Covers i [] seen ids idx c = c
add_providers-Covers i (p ∷ ps) seen ids idx c =
    let base = field (codes "providers") ∷ index_at i ∷ [] in
    let idx' = record idx { providers = insert p.name (provider_entry p) idx.providers } in
    add_providers-Covers (suc i) ps (add_name p.name seen)
      (check_models base p.name 0 p.models [] ids).1 (add_models p p.models idx')
      (add_models-Covers base p 0 p.models [] ids idx' c)

abbrev Known : Map Text ResolvedModel → ClientModel → Type 0
Known models cm = lookup cm.model models ≢ none

All-Known :
    (ids : List Text) (models : Map Text ResolvedModel) (cms : List ClientModel)
    → Covers ids models
    → All (ModelKnown ids) cms
    → All (Known models) cms
All-Known ids models [] c h = tt
All-Known ids models (cm ∷ cms) c (now, later) = (c cm.model now, All-Known ids models cms c later)

add_client_models_total :
    (models : Map Text ResolvedModel) (order : ℕ) (cms : List ClientModel) (kc : KeyContext)
    → All (Known models) cms
    → (kc' : KeyContext) × (add_client_models models order cms kc ≡ some kc')
unfolding add_client_models
add_client_models_total models order [] kc h = (kc, refl)
add_client_models_total models order (cm ∷ cms) kc (now, later) =
    elim (Option-cases (lookup cm.model models)) [
      | inl missing ↦ absurd (now missing)
      | inr (rm, found) ↦
          rw (found, add_client_models)
            (add_client_models_total models (suc order) cms
              (add_candidate (candidate cm rm order) kc) later)
    ]

pub build_key_total :
    (models : Map Text ResolvedModel) (k : ClientApiKey)
    → All (Known models) k.models
    → (kc : KeyContext) × (build_key models k ≡ some kc)
unfolding build_key
build_key_total models k h =
    let (kc, e) = add_client_models_total models 0 k.models (empty_key k) h in (sort_key kc, rw e)

add_keys_total :
    (ks : List ClientApiKey) (idx : Indexes)
    → All (λ k. All (Known idx.models) k.models) ks
    → (idx' : Indexes) × (add_keys ks idx ≡ some idx')
unfolding add_keys
add_keys_total [] idx h = (idx, refl)
add_keys_total (k ∷ ks) idx (now, later) =
    let (kc, e) = build_key_total idx.models k now in
    rw (e, add_keys)
      (add_keys_total ks
        (record idx {
          keys = insert k.key kc idx.keys;
          key_by_name = insert k.name kc idx.key_by_name;
        })
        later)

All-keys :
    (ids : List Text) (models : Map Text ResolvedModel) (ks : List ClientApiKey)
    → Covers ids models
    → All (λ k. All (ModelKnown ids) k.models) ks
    → All (λ k. All (Known models) k.models) ks
All-keys ids models [] c h = tt
All-keys ids models (k ∷ ks) c (now, later) =
    (All-Known ids models k.models c now, All-keys ids models ks c later)

-- Whatever test of JSON the payload rules are checked with: if `Validate` finds no error in a
-- config, `Build` does not fail on it.
pub build_total :
    (json_valid : Text → Bool) (cfg : Config)
    → validate json_valid cfg ≡ []
    → (idx : Indexes) × (build cfg ≡ some idx)
build_total json_valid cfg h =
    unfold build in
    add_keys_total cfg.api_keys _ (
      All-keys (known_ids cfg) (add_providers cfg.providers no_indexes).models cfg.api_keys
        (add_providers-Covers 0 cfg.providers [] [] no_indexes (λ t p. cc))
        (keys_known json_valid cfg h))
