-- ===== src/Indexes/Tests.antt =====
-- A small config, and its indexes.
use simple_api.Base.{
  ◌≡◌, refl, true, false, none, some, [], ◌∷◌, nat_eq, bool_eq, pair_eq, Text, codes, text_eq,
  contains_byte,
}
use simple_api.Base.Dict.{Map, lookup, insert}
use simple_api.Base.Sort.{Ordered, sort}
use simple_api.Config.{codex, Provider, ClientApiKey, Config}
use simple_api.Config.Validate.{validate}
use simple_api.Indexes.{
  ResolvedModel, Candidate, KeyContext, resolve_candidates, Indexes, resolved_model,
  sort_candidates, build_key, build,
}
use simple_api.Indexes.Routing.{
  resolve_candidates-build_key, TriedFirst, resolve_candidates-TriedFirst,
}
use simple_api.Indexes.Patterns.{chosen, candidates_of}
use simple_api.Indexes.Complete.{build_total}
use mathlib.Core.List.{Perm}

abbrev provider_p : Provider
provider_p = record {
  name = codes "p";
  type = codex;
  url = codes "u";
  urls = [];
  key = codes "s";
  headers = [];
  max_concurrency = none;
  models =
      record { model = codes "m1"; alias_a = [] }
      ∷ record { model = codes "m2"; alias_a = [] }
      ∷ [];
}

abbrev key_c : ClientApiKey
key_c = record {
  name = codes "c";
  key = codes "t";
  enabled = none;
  allowed_protocols = codex ∷ [];
  models =
      record { model = codes "p/m1"; alias_b = codes "x*"; priority = 1 }
      ∷ record { model = codes "p/m1"; alias_b = codes "y"; priority = 1 }
      ∷ record { model = codes "p/m2"; alias_b = codes "y"; priority = 5 }
      ∷ [];
}

abbrev small : Config
small = record {
  version = 1;
  server = record {
    listen = some (codes "l");
    request_timeout_seconds = none;
    stream_idle_timeout_seconds = none;
  };
  proxy = record {
    max_consecutive_failures = none;
    failure_reset_seconds = none;
    rewrite_response_model = none;
    usage_statistics_enabled = none;
    upstream_retry_status_codes = [];
    call_log_max_entries = none;
  };
  management = record { enabled = none; base_path = []; admin_key = codes "k" };
  archive_dir = [];
  payload = record {
    default = [];
    default_raw = [];
    override = [];
    override_raw = [];
    filter = [];
  };
  providers = provider_p ∷ [];
  api_keys = key_c ∷ [];
}

small_valid : validate (λ s. true) small ≡ []
unfolding validate contains_byte lookup
small_valid = refl

build_total_example : (idx : Indexes) × (build small ≡ some idx)
build_total_example = build_total (λ s. true) small small_valid

abbrev models : Map Text ResolvedModel
models =
    (codes "p/m1", resolved_model provider_p (record { model = codes "m1"; alias_a = [] }))
    ∷ (codes "p/m2", resolved_model provider_p (record { model = codes "m2"; alias_a = [] }))
    ∷ []

abbrev candidate_1 : Candidate
candidate_1 = record { internal_id = codes "p/m1"; alias_b = codes "y"; priority = 1; order = 1 }

abbrev candidate_2 : Candidate
candidate_2 = record { internal_id = codes "p/m2"; alias_b = codes "y"; priority = 5; order = 2 }

abbrev built : KeyContext
built = record {
  name = codes "c";
  key = codes "t";
  disabled = false;
  allowed_protocols = codex ∷ [];
  routing = (codes "y", candidate_2 ∷ candidate_1 ∷ []) ∷ [];
  wildcards =
      record {
        pattern = codes "x*";
        candidates =
            record { internal_id = codes "p/m1"; alias_b = codes "x*"; priority = 1; order = 0 }
            ∷ [];
      }
      ∷ [];
  alias_bs = codes "y" ∷ [];
}

key_built : build_key models key_c ≡ some built
unfolding build_key lookup insert sort contains_byte
key_built = refl

resolve_candidates-build_key_example :
    resolve_candidates built (codes "y")
    ≡ sort_candidates (chosen (codes "y") (candidates_of models 0 key_c.models))
resolve_candidates-build_key_example =
    resolve_candidates-build_key models key_c built (codes "y") key_built

resolve_candidates-TriedFirst_example :
    Ordered TriedFirst (resolve_candidates built (codes "y"))
    × Perm
        (resolve_candidates built (codes "y"))
        (chosen (codes "y") (candidates_of models 0 key_c.models))
resolve_candidates-TriedFirst_example =
    resolve_candidates-TriedFirst models key_c built (codes "y") key_built
