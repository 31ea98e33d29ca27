-- ===== src/Indexes.antt =====
-- internal/indexes/indexes.go: the lookup tables that are built from a validated config.
pub mod Patterns
pub mod Routing
pub mod Complete
mod Tests
use simple_api.Base.{
  ℕ, suc, Bool, not, Option, none, some, option_map, List, [], ◌∷◌, ◌++◌, map, ltb, if◌then◌else◌,
  ◌==◌, nat_eq, bool_eq, pair_eq, is_empty, any, Text, text_eq, text_lt, contains_byte,
}
use simple_api.Base.Dict.{Map, lookup, insert}
use simple_api.Base.Int64.{Int64, slt, eq64}
use simple_api.Base.Sort.{sort}
use simple_api.Config.{
  get_or, ProviderModel, Provider, ClientModel, ClientApiKey, key_enabled, Config, upstream_for,
  concurrency_limit, effective_alias_a, model_internal_id,
}
use simple_api.Glob.{star, glob_match}

pub record ResolvedModel : Type 0 where
  pub provider_name : Text
  pub provider_type : Text
  pub upstream_model : Text
  pub alias_a : Text
  pub internal_id : Text

pub record ProviderEntry : Type 0 where
  pub name : Text
  pub type : Text
  pub url : Text
  pub urls : Map Text Text
  pub key : Text
  pub headers : Map Text Text
  pub max_concurrency : Int64

-- `ResolveUpstream`.
unfoldable pub resolve_upstream : ProviderEntry → Text → ProviderEntry
unfolding upstream_for
resolve_upstream p client =
    let (type, url) = upstream_for p.type p.url p.urls client in record p { type = type; url = url }

pub record Candidate : Type 0 where
  pub internal_id : Text
  pub alias_b : Text
  pub priority : Int64
  pub order : ℕ

pub record WildcardRoute : Type 0 where
  pub pattern : Text
  pub candidates : List Candidate

pub record KeyContext : Type 0 where
  pub name : Text
  pub key : Text
  pub disabled : Bool
  pub allowed_protocols : List Text
  pub routing : Map Text (List Candidate)
  pub wildcards : List WildcardRoute
  pub alias_bs : List Text

-- The loop over the wildcards; no route is the nil list.
unfoldable pub first_wildcard : List WildcardRoute → Text → List Candidate
first_wildcard [] requested = []
first_wildcard (w ∷ ws) requested =
    if glob_match w.pattern requested then w.candidates else first_wildcard ws requested

abbrev pub exact_or : Option (List Candidate) → List Candidate → List Candidate
exact_or (some cs) wild = cs
exact_or none wild = wild

-- `ResolveCandidates`.
unfoldable pub resolve_candidates : KeyContext → Text → List Candidate
unfolding first_wildcard
resolve_candidates kc requested =
    exact_or (lookup requested kc.routing) (first_wildcard kc.wildcards requested)

-- `addWildcardCandidate`, on the routes.
unfoldable pub add_wildcard_candidate : Text → Candidate → List WildcardRoute → List WildcardRoute
add_wildcard_candidate pattern cand [] = record { pattern = pattern; candidates = cand ∷ [] } ∷ []
add_wildcard_candidate pattern cand (w ∷ ws) =
    if w.pattern == pattern
    then record w { candidates = w.candidates ++ cand ∷ [] } ∷ ws
    else w ∷ add_wildcard_candidate pattern cand ws

pub record Indexes : Type 0 where
  pub providers : Map Text ProviderEntry
  pub models : Map Text ResolvedModel
  pub keys : Map Text KeyContext
  pub key_by_name : Map Text KeyContext
  pub internal_ids : List Text

abbrev pub provider_entry : Provider → ProviderEntry
provider_entry p = record {
  name = p.name;
  type = p.type;
  url = p.url;
  urls = p.urls;
  key = p.key;
  headers = p.headers;
  max_concurrency = concurrency_limit p;
}

abbrev pub resolved_model : Provider → ProviderModel → ResolvedModel
resolved_model p m = record {
  provider_name = p.name;
  provider_type = p.type;
  upstream_model = m.model;
  alias_a = effective_alias_a m;
  internal_id = model_internal_id p.name m;
}

-- The loop over one provider's models.
unfoldable pub add_models : Provider → List ProviderModel → Indexes → Indexes
add_models p [] idx = idx
add_models p (m ∷ ms) idx =
    let id = model_internal_id p.name m in
    add_models p ms (record idx {
      models = insert id (resolved_model p m) idx.models;
      internal_ids = idx.internal_ids ++ id ∷ [];
    })

-- The loop over the providers.
unfoldable pub add_providers : List Provider → Indexes → Indexes
unfolding add_models concurrency_limit
add_providers [] idx = idx
add_providers (p ∷ ps) idx = add_providers ps (
    add_models p p.models
      (record idx { providers = insert p.name (provider_entry p) idx.providers }))

-- Adds to the list under a key.
abbrev pub append_at : Text → Candidate → Map Text (List Candidate) → Map Text (List Candidate)
append_at k c m = insert k (get_or [] (lookup k m) ++ c ∷ []) m

abbrev pub effective_alias_b : ClientModel → ResolvedModel → Text
effective_alias_b cm rm = if is_empty cm.alias_b then rm.alias_a else cm.alias_b

abbrev pub candidate : ClientModel → ResolvedModel → ℕ → Candidate
candidate cm rm order = record {
  internal_id = cm.model;
  alias_b = effective_alias_b cm rm;
  priority = cm.priority;
  order = order;
}

-- The branch on whether the alias has a wildcard. `aliasBSeen` holds what `alias_bs` holds.
unfoldable pub add_candidate : Candidate → KeyContext → KeyContext
unfolding add_wildcard_candidate
add_candidate cand kc =
    if contains_byte cand.alias_b star
    then record kc { wildcards = add_wildcard_candidate cand.alias_b cand kc.wildcards }
    else record kc {
      routing = append_at cand.alias_b cand kc.routing;
      alias_bs =
          if any (λ a. a == cand.alias_b) kc.alias_bs
          then kc.alias_bs
          else kc.alias_bs ++ cand.alias_b ∷ [];
    }

-- The loop over a key's models. `none` is the error for an unknown model.
unfoldable pub add_client_models :
    Map Text ResolvedModel → ℕ → List ClientModel → KeyContext → Option KeyContext
unfolding add_candidate
add_client_models models order [] kc = some kc
add_client_models models order (cm ∷ cms) kc = elim (lookup cm.model models) [
  | none ↦ none
  | some rm ↦ add_client_models models (suc order) cms (add_candidate (candidate cm rm order) kc)
]

-- The order of `sortCandidates`: priority first, the highest, and then the config order.
abbrev pub before : Candidate → Candidate → Bool
before a b =
    if not (eq64 a.priority b.priority) then slt b.priority a.priority else ltb a.order b.order

abbrev pub sort_candidates : List Candidate → List Candidate
sort_candidates cs = sort before cs

abbrev pub sort_strings : List Text → List Text
sort_strings ts = sort text_lt ts

abbrev pub sort_route : WildcardRoute → WildcardRoute
sort_route w = record w { candidates = sort_candidates w.candidates }

abbrev pub empty_key : ClientApiKey → KeyContext
empty_key k = record {
  name = k.name;
  key = k.key;
  disabled = not (key_enabled k);
  allowed_protocols = k.allowed_protocols;
  routing = [];
  wildcards = [];
  alias_bs = [];
}

unfoldable pub sort_key : KeyContext → KeyContext
sort_key kc = record kc {
  routing = map (λ e. (e.0, sort_candidates e.1)) kc.routing;
  wildcards = map sort_route kc.wildcards;
  alias_bs = sort_strings kc.alias_bs;
}

-- The context of one key.
unfoldable pub build_key : Map Text ResolvedModel → ClientApiKey → Option KeyContext
unfolding add_client_models sort_key
build_key models k = option_map sort_key (add_client_models models 0 k.models (empty_key k))

-- The loop over the keys.
unfoldable pub add_keys : List ClientApiKey → Indexes → Option Indexes
unfolding build_key
add_keys [] idx = some idx
add_keys (k ∷ ks) idx = elim (build_key idx.models k) [
  | none ↦ none
  | some kc ↦ add_keys ks (record idx {
    keys = insert k.key kc idx.keys;
    key_by_name = insert k.name kc idx.key_by_name;
  })
]

abbrev pub no_indexes : Indexes
no_indexes = record { providers = []; models = []; keys = []; key_by_name = []; internal_ids = [] }

-- `Build`.
unfoldable pub build : Config → Option Indexes
unfolding add_providers add_keys
build cfg =
    let idx = add_providers cfg.providers no_indexes in
    add_keys cfg.api_keys (record idx { internal_ids = sort_strings idx.internal_ids })
