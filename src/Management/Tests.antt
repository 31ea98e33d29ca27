-- ===== src/Management/Tests.antt =====
-- A config with one key and its changes. The YAML library is stood in for by functions that keep a
-- config as it is and write every one as the same text.
use simple_api.Management.Listing.{all_model_ids, list_models-ids}
use simple_api.Base.{
  ◌≡◌, refl, ◌≢◌, Bool, true, false, none, some, List, [], ◌∷◌, map, nat_eq, bool_eq, pair_eq,
  codes, text_eq, has_prefix, contains_byte,
}
use simple_api.Base.Dict.{lookup, insert}
use simple_api.Base.Sort.{sort}
use simple_api.Config.{codex, get_or, ClientApiKey, Config}
use simple_api.Config.Env.{expand}
use simple_api.Config.Validate.{validate}
use simple_api.Indexes.{ResolvedModel, Indexes, sort_strings, empty_key, no_indexes, build}
use simple_api.Management.{
  State, Outside, api_key_index, with_keys, apply_and_commit, mutate_raw, put_api_key, panicked,
}
use simple_api.Management.Commit.{IsConsistent, Applied, apply_and_commit-Applied}
use simple_api.Management.Sequences.{
  Call, handle, run, run-IsConsistent, put_config_call, create_key_call, put_key_call,
  delete_key_call,
}
use simple_api.Management.Reads.{list_models, request_mime}
use simple_api.Base.Spaces.{trim_space}
use simple_api.Management.Panics.{handle-ne-panicked}

abbrev key_a : ClientApiKey
key_a = record {
  name = codes "a";
  key = codes "t";
  enabled = none;
  allowed_protocols = [];
  models = [];
}

abbrev key_b : ClientApiKey
key_b = record {
  name = codes "b";
  key = codes "u";
  enabled = none;
  allowed_protocols = [];
  models = [];
}

abbrev cfg : Config
cfg = record {
  version = 1;
  server = record {
    listen = some (codes "l");
    request_timeout_seconds = none;
    stream_idle_timeout_seconds = none;
  };
  proxy = record {
    max_consecutive_failures = none;
    failure_reset_seconds = none;
    rewrite_response_model = none;
    usage_statistics_enabled = none;
    upstream_retry_status_codes = [];
    call_log_max_entries = none;
  };
  management = record { enabled = none; base_path = []; admin_key = codes "k" };
  archive_dir = [];
  payload = record {
    default = [];
    default_raw = [];
    override = [];
    override_raw = [];
    filter = [];
  };
  providers = [];
  api_keys = key_a ∷ [];
}

abbrev out : Outside
out = record {
  deep_copy = λ c. c;
  json_valid = λ s. true;
  getenv = λ name. none;
  marshal = λ c. some (codes "yaml");
  decode = λ s. some cfg;
}

abbrev idx : Indexes
idx = record {
  providers = [];
  models = [];
  keys = (codes "t", empty_key key_a) ∷ [];
  key_by_name = (codes "a", empty_key key_a) ∷ [];
  internal_ids = [];
}

abbrev state : State
state = record { raw = cfg; cfg = cfg; indexes = idx; file = [] }

state-IsConsistent : IsConsistent out state
unfolding expand build validate insert lookup contains_byte has_prefix sort
state-IsConsistent = record { expansion = refl; valid = refl; indexed = refl }

-- A key is put under a name that is gone: it was last in the config that the handler has searched,
-- and another call has cut the list since.
late_put :
    (put_api_key out true (codes "b") (some key_b) (with_keys cfg (key_a ∷ key_b ∷ [])) state).0
    ≡ panicked
unfolding put_api_key mutate_raw
late_put = refl

-- The same between a search and a change of the same list replaces another entry.
wrong_entry : api_key_index (with_keys cfg (key_b ∷ [])) (codes "b") ≡ some 0
unfolding api_key_index
wrong_entry = refl

abbrev calls : List (Bool × Call)
calls =
    (true, create_key_call (some key_b))
    ∷ (false, put_config_call (some cfg))
    ∷ (true, delete_key_call (codes "a") cfg)
    ∷ []

run-IsConsistent_example : IsConsistent out (run out calls state)
run-IsConsistent_example = run-IsConsistent out calls state state-IsConsistent

apply_and_commit-Applied_example : Applied out true cfg state (apply_and_commit out true cfg state)
apply_and_commit-Applied_example = apply_and_commit-Applied out true cfg state

handle-ne-panicked_example :
    (handle out true (put_key_call (codes "a") (some key_b) cfg) state).0 ≢ panicked
handle-ne-panicked_example =
    handle-ne-panicked out true (put_key_call (codes "a") (some key_b) cfg) state refl refl

abbrev served : Config
served = record cfg {
  providers =
      record {
        name = codes "p";
        type = codex;
        url = codes "u";
        urls = [];
        key = [];
        headers = [];
        max_concurrency = none;
        models =
            record { model = codes "m2"; alias_a = [] }
            ∷ record { model = codes "m"; alias_a = codes "a" }
            ∷ [];
      }
      ∷ [];
  api_keys = [];
}

served_built : Indexes
unfolding build
served_built = get_or no_indexes (build served)

build-served : build served ≡ some served_built
unfolding served_built build insert lookup
build-served = refl

list_models-ids_example :
    (ms : List ResolvedModel) × ((list_models served_built ≡ some ms)
      × (map (λ m. m.internal_id) ms ≡ sort_strings (all_model_ids served.providers)))
list_models-ids_example = list_models-ids served served_built build-served

mime : request_mime (λ s. s) (codes " Application/JSON; charset=utf-8") ≡ codes "application/json"
unfolding request_mime trim_space
mime = refl
