-- ===== src/Auth/Keys.antt =====
-- Who is let in: what `Middleware` finds in the indexes, against the keys of the config.
use simple_api.Auth.{
  path_protocol, extract_token, check_key, check_token, check_path, authenticate, passed,
}
use simple_api.Base.{
  ℕ, suc, ◌≡◌, refl, sym, ap, ◌∙◌, ◌≢◌, ◌⊎◌, inl, inr, Bool, true, false, not, Option, none, some,
  List, [], ◌∷◌, arith, Bool-cases, Option-cases, ◌==◌, eq_of_==, nat_eq, bool_eq, pair_eq,
  is_empty, In, Text, text_eq,
}
use simple_api.Base.Dict.{Map, lookup, insert, lookup-insert}
use simple_api.Config.{ProviderModel, Provider, ClientModel, ClientApiKey, key_enabled, Config}
use simple_api.Indexes.{
  ResolvedModel, Candidate, KeyContext, Indexes, add_models, add_providers, candidate,
  add_candidate, add_client_models, before, empty_key, sort_key, build_key, add_keys, no_indexes,
  build,
}

-- A key of the config that a token stands for, with the context that `Build` makes of it.
pub record IsKeyOf (ks : List ClientApiKey) (models : Map Text ResolvedModel) (token : Text)
    (kc : KeyContext) : Type 0 where
  pub owner : ClientApiKey
  pub listed : In owner ks
  pub token_is : owner.key ≡ token
  pub built : build_key models owner ≡ some kc

IsKeyOf-later :
    {k : ClientApiKey} {ks : List ClientApiKey} {models : Map Text ResolvedModel} {token : Text}
    {kc : KeyContext}
    → IsKeyOf ks models token kc
    → IsKeyOf (k ∷ ks) models token kc
IsKeyOf-later i = record {
  owner = i.owner;
  listed = inr i.listed;
  token_is = i.token_is;
  built = i.built;
}

-- Every context that is found comes from a key, or was there before.
abbrev From : Indexes → List ClientApiKey → Map Text ResolvedModel → Indexes → Type 0
From idx ks models idx' =
    (token : Text) (kc : KeyContext)
    → lookup token idx'.keys ≡ some kc
    → (lookup token idx.keys ≡ some kc) ⊎ IsKeyOf ks models token kc

From-add :
    (k : ClientApiKey) (ks : List ClientApiKey) (idx idx' : Indexes) (kc : KeyContext)
    → build_key idx.models k ≡ some kc
    → From
        (record idx {
          keys = insert k.key kc idx.keys;
          key_by_name = insert k.name kc idx.key_by_name;
        })
        ks
        idx.models
        idx'
    → From idx (k ∷ ks) idx.models idx'
From-add k ks idx idx' kc b from token found h = elim (from token found h) [
  | inr later ↦ inr (IsKeyOf-later later)
  | inl before ↦ elim (Bool-cases (k.key == token)) [
    | inl same ↦
        let e = rw same at (lookup-insert k.key token kc idx.keys) in
        inr (record {
          owner = k;
          listed = inl refl;
          token_is = eq_of_== k.key token same;
          built = cc (b, e, before);
        })
    | inr differs ↦
        let e = rw differs at (lookup-insert k.key token kc idx.keys) in inl (cc (e, before))
  ]
]

add_keys-From :
    (ks : List ClientApiKey) (idx idx' : Indexes)
    → add_keys ks idx ≡ some idx'
    → From idx ks idx.models idx'
unfolding add_keys
add_keys-From [] idx idx' h = λ token kc found. inl (cc (h, found))
add_keys-From (k ∷ ks) idx idx' h = elim (Option-cases (build_key idx.models k)) [
  | inl failed ↦ let e = rw (failed, add_keys) at h in cc
  | inr (kc, b) ↦ From-add k ks idx idx' kc b (add_keys-From ks _ idx' (rw (b, add_keys) at h))
]

add_models-keys :
    (p : Provider) (ms : List ProviderModel) (idx : Indexes) → (add_models p ms idx).keys ≡ idx.keys
unfolding add_models
add_models-keys p [] idx = refl
add_models-keys p (m ∷ ms) idx = add_models-keys p ms _

add_providers-keys : (ps : List Provider) (idx : Indexes) → (add_providers ps idx).keys ≡ idx.keys
unfolding add_providers
add_providers-keys [] idx = refl
add_providers-keys (p ∷ ps) idx = add_providers-keys ps _ ∙ add_models-keys p p.models _

add_candidate-disabled :
    (c : Candidate) (kc : KeyContext) → (add_candidate c kc).disabled ≡ kc.disabled
unfolding add_candidate
add_candidate-disabled c kc = ground arith

add_client_models-disabled :
    (models : Map Text ResolvedModel) (order : ℕ) (cms : List ClientModel) (kc kc' : KeyContext)
    → add_client_models models order cms kc ≡ some kc'
    → kc'.disabled ≡ kc.disabled
unfolding add_client_models
add_client_models-disabled models order [] kc kc' h = cc
add_client_models-disabled models order (cm ∷ cms) kc kc' h =
    elim (Option-cases (lookup cm.model models)) [
      | inl missing ↦ let e = rw (missing, add_client_models) at h in cc
      | inr (rm, found) ↦
          add_client_models-disabled models (suc order) cms _ kc'
            (rw (found, add_client_models) at h)
          ∙ add_candidate-disabled (candidate cm rm order) kc
    ]

build_key-disabled :
    (models : Map Text ResolvedModel) (k : ClientApiKey) (kc : KeyContext)
    → build_key models k ≡ some kc
    → kc.disabled ≡ not (key_enabled k)
unfolding build_key sort_key
build_key-disabled models k kc h =
    elim (Option-cases (add_client_models models 0 k.models (empty_key k))) [
      | inl failed ↦ let e = rw failed at h in cc
      | inr (kc', done) ↦
          let e = rw done at h in
          let same = add_client_models-disabled models 0 k.models (empty_key k) kc' done in
          let sorted : sort_key kc' ≡ kc = cc e in ap (λ c. c.disabled) (sym sorted) ∙ same
    ]

add_keys-models :
    (ks : List ClientApiKey) (idx idx' : Indexes)
    → add_keys ks idx ≡ some idx'
    → idx'.models ≡ idx.models
unfolding add_keys
add_keys-models [] idx idx' h = cc
add_keys-models (k ∷ ks) idx idx' h = elim (Option-cases (build_key idx.models k)) [
  | inl failed ↦ let e = rw (failed, add_keys) at h in cc
  | inr (kc, b) ↦ add_keys-models ks _ idx' (rw (b, add_keys) at h)
]

-- Every context in the indexes that `Build` makes is the one of a key of the config.
build-From :
    (cfg : Config) (idx : Indexes) (token : Text) (kc : KeyContext)
    → build cfg ≡ some idx
    → lookup token idx.keys ≡ some kc
    → IsKeyOf cfg.api_keys idx.models token kc
unfolding build
build-From cfg idx token kc h found =
    let models = add_keys-models cfg.api_keys _ idx h in
    elim (add_keys-From cfg.api_keys _ idx h token kc found) [
      | inl before ↦
          let e = rw (add_providers-keys cfg.providers no_indexes) at before in
          let n : lookup token no_indexes.keys ≡ none = unfold lookup in refl in cc (e, n)
      | inr i ↦ rw models i
    ]

check_key_sound :
    (protocol p : Text) (found : Option KeyContext) (kc : KeyContext)
    → check_key protocol found ≡ passed p kc
    → (protocol ≡ p) × ((found ≡ some kc) × (kc.disabled ≡ false))
check_key_sound protocol p none kc h = cc
check_key_sound protocol p (some c) kc h = elim (Bool-cases c.disabled) [
  | inl off ↦ let e = rw off at h in cc
  | inr on ↦ let e = rw on at h in (cc, (cc, cc (e, on)))
]

check_token_sound :
    (idx : Indexes) (protocol token p : Text) (kc : KeyContext)
    → check_token idx protocol token ≡ passed p kc
    → (protocol ≡ p) × ((lookup token idx.keys ≡ some kc) × (kc.disabled ≡ false))
check_token_sound idx protocol token p kc h = elim (Bool-cases (is_empty token)) [
  | inl nothing ↦ let e = rw nothing at h in cc
  | inr given ↦ check_key_sound protocol p (lookup token idx.keys) kc (rw given at h)
]

check_path_sound :
    (idx : Indexes) (o : Option (Text × Bool)) (token p : Text) (kc : KeyContext)
    → check_path idx o token ≡ passed p kc
    → (o ≢ none) × ((lookup token idx.keys ≡ some kc) × (kc.disabled ≡ false))
check_path_sound idx none token p kc h = cc
check_path_sound idx (some (protocol, m)) token p kc h =
    (λ e. cc, (check_token_sound idx protocol token p kc h).1)

-- With the indexes that `Build` makes of a config, a request that passes `Middleware` has a path
-- that `PathProtocol` knows, and its token is the key of an entry of the config's api_keys that is
-- enabled, and of which the context that is stored was made.
pub authenticate_sound :
    (cfg : Config) (idx : Indexes) (path : Text) (header : Text → Text) (protocol : Text)
    (kc : KeyContext)
    → build cfg ≡ some idx
    → authenticate idx path header ≡ passed protocol kc
    → (path_protocol path ≢ none)
      × ((i : IsKeyOf cfg.api_keys idx.models (extract_token header) kc) × (key_enabled i.owner
            ≡ true))
unfolding authenticate
authenticate_sound cfg idx path header protocol kc b h =
    let (known, (found, on)) =
      check_path_sound idx (path_protocol path) (extract_token header) protocol kc h in
    let i = build-From cfg idx (extract_token header) kc b found in
    (known, (i, enabled _ (sym (build_key-disabled idx.models i.owner kc i.built) ∙ on)))
  where
    enabled : (e : Bool) → not e ≡ false → e ≡ true
    enabled true h = refl
    enabled false h = cc
