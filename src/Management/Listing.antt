-- ===== src/Management/Listing.antt =====
-- With the indexes that `Build` makes, `listModels` finds every model that it lists.
use simple_api.Base.Sort.{All-sort}
use simple_api.Config.{ProviderModel, Provider, ClientApiKey, Config, model_internal_id}
use simple_api.Management.Reads.{models_of, list_models}
use simple_api.Base.{
  ◌≡◌, refl, sym, ap, ◌∙◌, inl, inr, Option, none, some, List, [], ◌∷◌, ◌++◌, map, append-nil,
  append_assoc, Bool-cases, ◌==◌, ==-refl, eq_of_==, nat_eq, bool_eq, pair_eq, All, Text, text_eq,
  text_lt,
}
use simple_api.Base.Dict.{Map, lookup, insert, lookup-insert}
use simple_api.Indexes.{
  ResolvedModel, KeyContext, Indexes, resolved_model, add_models, add_providers, sort_strings,
  build_key, add_keys, no_indexes, build,
}

-- The models have an entry under the id, which is its own.
abbrev Named : Map Text ResolvedModel → Text → Type 0
Named models id = (rm : ResolvedModel) × ((lookup id models ≡ some rm) × (rm.internal_id ≡ id))

-- The ids of all models, in the order of the config.
abbrev pub model_ids : Provider → List Text
unfolding model_internal_id
model_ids p = map (model_internal_id p.name) p.models

pub all_model_ids : List Provider → List Text
unfolding model_internal_id
all_model_ids [] = []
all_model_ids (p ∷ ps) = model_ids p ++ all_model_ids ps

Named-insert :
    (models : Map Text ResolvedModel) (id : Text) (rm : ResolvedModel) (t : Text)
    → rm.internal_id ≡ id
    → Named models t
    → Named (insert id rm models) t
Named-insert models id rm t own (rm', (found, own')) = elim (Bool-cases (id == t)) [
  | inl e ↦ (rm, (lookup-insert id t rm models ∙ rw e refl, own ∙ eq_of_== id t e))
  | inr e ↦ (rm', (lookup-insert id t rm models ∙ rw e found, own'))
]

Named-new :
    (models : Map Text ResolvedModel) (id : Text) (rm : ResolvedModel)
    → rm.internal_id ≡ id
    → Named (insert id rm models) id
Named-new models id rm own = (rm, (lookup-insert id id rm models ∙ rw (==-refl id) refl, own))

All-Named-insert :
    (models : Map Text ResolvedModel) (id : Text) (rm : ResolvedModel) (ids : List Text)
    → rm.internal_id ≡ id
    → All (Named models) ids
    → All (Named (insert id rm models)) (ids ++ id ∷ [])
All-Named-insert models id rm [] own tt = (Named-new models id rm own, tt)
All-Named-insert models id rm (t ∷ ids) own (now, later) =
    (Named-insert models id rm t own now, All-Named-insert models id rm ids own later)

add_models-Named :
    (p : Provider) (ms : List ProviderModel) (idx : Indexes)
    → All (Named idx.models) idx.internal_ids
    → All (Named (add_models p ms idx).models) (add_models p ms idx).internal_ids
unfolding add_models
add_models-Named p [] idx h = h
add_models-Named p (m ∷ ms) idx h = add_models-Named p ms _ (
    All-Named-insert idx.models (model_internal_id p.name m) (resolved_model p m) idx.internal_ids
      refl h)

add_models-ids :
    (p : Provider) (ms : List ProviderModel) (idx : Indexes)
    → (add_models p ms idx).internal_ids ≡ idx.internal_ids ++ map (model_internal_id p.name) ms
unfolding add_models
add_models-ids p [] idx = sym (append-nil idx.internal_ids)
add_models-ids p (m ∷ ms) idx =
    add_models-ids p ms _
    ∙ append_assoc idx.internal_ids (model_internal_id p.name m ∷ [])
        (map (model_internal_id p.name) ms)

add_providers-Named :
    (ps : List Provider) (idx : Indexes)
    → All (Named idx.models) idx.internal_ids
    → All (Named (add_providers ps idx).models) (add_providers ps idx).internal_ids
unfolding add_providers
add_providers-Named [] idx h = h
add_providers-Named (p ∷ ps) idx h = add_providers-Named ps _ (add_models-Named p p.models _ h)

add_providers-ids :
    (ps : List Provider) (idx : Indexes)
    → (add_providers ps idx).internal_ids ≡ idx.internal_ids ++ all_model_ids ps
unfolding add_providers all_model_ids
add_providers-ids [] idx = sym (append-nil idx.internal_ids)
add_providers-ids (p ∷ ps) idx =
    add_providers-ids ps _
    ∙ (ap (λ t. t ++ all_model_ids ps) (add_models-ids p p.models _)
        ∙ append_assoc idx.internal_ids (model_ids p) (all_model_ids ps))

-- The loop over the keys leaves the models and the ids.
add_keys-same :
    (ks : List ClientApiKey) (idx idx' : Indexes)
    → add_keys ks idx ≡ some idx'
    → (idx'.models ≡ idx.models) × (idx'.internal_ids ≡ idx.internal_ids)
unfolding add_keys
add_keys-same [] idx idx' e =
    let q : idx' ≡ idx = cc in (ap (λ i. i.models) q, ap (λ i. i.internal_ids) q)
add_keys-same (k ∷ ks) idx idx' e =
    by_key (build_key idx.models k) (λ i h. add_keys-same ks i idx' h) e
  where
    by_key :
        (kc : Option KeyContext)
        → ((i : Indexes)
            → add_keys ks i ≡ some idx'
            → (idx'.models ≡ i.models) × (idx'.internal_ids ≡ i.internal_ids))
        → elim kc [
          | none ↦ none
          | some kc' ↦ add_keys ks (record idx {
            keys = insert k.key kc' idx.keys;
            key_by_name = insert k.name kc' idx.key_by_name;
          })
        ]
          ≡ some idx'
        → (idx'.models ≡ idx.models) × (idx'.internal_ids ≡ idx.internal_ids)
    by_key none later h = cc
    by_key (some kc') later h = later _ h

models_of-Named :
    (models : Map Text ResolvedModel) (ids : List Text)
    → All (Named models) ids
    → (ms : List ResolvedModel) × ((models_of models ids ≡ some ms)
        × (map (λ m. m.internal_id) ms ≡ ids))
unfolding models_of
models_of-Named models [] h = ([], (refl, refl))
models_of-Named models (id ∷ ids) ((rm, (found, own)), later) =
    let (ms, (all_found, named)) = models_of-Named models ids later in
    (rm ∷ ms, (rw (found, all_found) refl, rw (own, named) refl))

-- With the indexes that `Build` makes of a config, `listModels` does not panic: it lists one model for
-- each model of each provider, by their internal ids in byte order.
pub list_models-ids :
    (cfg : Config) (idx : Indexes)
    → build cfg ≡ some idx
    → (ms : List ResolvedModel) × ((list_models idx ≡ some ms)
        × (map (λ m. m.internal_id) ms ≡ sort_strings (all_model_ids cfg.providers)))
unfolding list_models build
list_models-ids cfg idx e =
    let made = add_providers cfg.providers no_indexes in
    let same =
      add_keys-same cfg.api_keys (record made { internal_ids = sort_strings made.internal_ids }) idx
        e in
    let named =
      All-sort text_lt (Named made.models) made.internal_ids
        (add_providers-Named cfg.providers no_indexes tt) in
    let (ms, (found, ids)) = models_of-Named made.models (sort_strings made.internal_ids) named in
    (
      ms,
      (
        (λ i. models_of (same.0 i) (same.1 i)) ∙ found,
        ids ∙ ap sort_strings (add_providers-ids cfg.providers no_indexes),
      ),
    )
