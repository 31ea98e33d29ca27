-- ===== src/Startup/Tests.antt =====
-- A start on a small config file.
use simple_api.Base.{
  ◌≡◌, refl, Bool, true, none, some, List, [], ◌∷◌, nat_eq, bool_eq, pair_eq, codes, text_eq,
  has_prefix, contains_byte,
}
use simple_api.Base.Dict.{lookup}
use simple_api.Config.{Config}
use simple_api.Config.Env.{expand}
use simple_api.Config.Validate.{validate}
use simple_api.Management.{State, Outside, expanded}
use simple_api.Management.Commit.{IsConsistent}
use simple_api.Management.Sequences.{Call, run, put_config_call, reload_call}
use simple_api.Startup.{start, address}
use simple_api.Startup.Running.{start-run-IsConsistent}

abbrev small : Config
small = record {
  version = 1;
  server = record {
    listen = some (codes "l");
    request_timeout_seconds = none;
    stream_idle_timeout_seconds = none;
  };
  proxy = record {
    max_consecutive_failures = none;
    failure_reset_seconds = none;
    rewrite_response_model = none;
    usage_statistics_enabled = none;
    upstream_retry_status_codes = [];
    call_log_max_entries = none;
  };
  management = record { enabled = none; base_path = []; admin_key = codes "k" };
  archive_dir = [];
  payload = record {
    default = [];
    default_raw = [];
    override = [];
    override_raw = [];
    filter = [];
  };
  providers = [];
  api_keys = [];
}

abbrev out : Outside
out = record {
  deep_copy = λ c. c;
  json_valid = λ s. true;
  getenv = λ name. none;
  marshal = λ c. some (codes "yaml");
  decode = λ s. some small;
}

small_valid : validate (λ s. true) (expanded out small) ≡ []
unfolding validate expand lookup contains_byte has_prefix
small_valid = refl

abbrev calls : List (Bool × Call)
calls = (true, put_config_call none) ∷ (true, reload_call) ∷ []

start-run-IsConsistent_example :
    (s : State) × ((start out (codes "file") ≡ some s) × IsConsistent out (run out calls s))
start-run-IsConsistent_example =
    start-run-IsConsistent out (codes "file") small calls refl small_valid

default_address :
    address [] (record small { server = record small.server { listen = none } })
    ≡ codes "127.0.0.1:8317"
unfolding address
default_address = refl
