-- ===== src/Auth/Tests.antt =====
-- A config with one key, and requests with and without it.
use simple_api.Base.{
  ◌≡◌, refl, ◌≢◌, true, none, some, [], ◌∷◌, if◌then◌else◌, ◌==◌, nat_eq, bool_eq, pair_eq, Text,
  codes, text_eq, has_prefix,
}
use simple_api.Base.Dict.{lookup, insert}
use simple_api.Base.Sort.{sort}
use simple_api.Config.{codex, ClientApiKey, key_enabled, Config}
use simple_api.Indexes.{KeyContext, Indexes, empty_key, build}
use simple_api.Auth.{path_protocol, extract_token, authenticate, passed, aborted}
use simple_api.Auth.Keys.{IsKeyOf, authenticate_sound}

abbrev key_a : ClientApiKey
key_a = record {
  name = codes "a";
  key = codes "t";
  enabled = none;
  allowed_protocols = [];
  models = [];
}

abbrev cfg : Config
cfg = record {
  version = 1;
  server = record {
    listen = some (codes "l");
    request_timeout_seconds = none;
    stream_idle_timeout_seconds = none;
  };
  proxy = record {
    max_consecutive_failures = none;
    failure_reset_seconds = none;
    rewrite_response_model = none;
    usage_statistics_enabled = none;
    upstream_retry_status_codes = [];
    call_log_max_entries = none;
  };
  management = record { enabled = none; base_path = []; admin_key = codes "k" };
  archive_dir = [];
  payload = record {
    default = [];
    default_raw = [];
    override = [];
    override_raw = [];
    filter = [];
  };
  providers = [];
  api_keys = key_a ∷ [];
}

abbrev context : KeyContext
context = empty_key key_a

abbrev idx : Indexes
idx = record {
  providers = [];
  models = [];
  keys = (codes "t", context) ∷ [];
  key_by_name = (codes "a", context) ∷ [];
  internal_ids = [];
}

abbrev bearer : Text → Text
bearer name = if name == codes "Authorization" then codes "Bearer t" else []

built : build cfg ≡ some idx
unfolding build insert sort
built = refl

let_in : authenticate idx (codes "/v1/responses") bearer ≡ passed codex context
unfolding authenticate lookup has_prefix
let_in = refl

kept_out :
    authenticate idx (codes "/v1/responses") (λ name. []) ≡ aborted 401 (codes "unauthorized")
unfolding authenticate has_prefix
kept_out = refl

authenticate_sound_example :
    (path_protocol (codes "/v1/responses") ≢ none)
    × ((i : IsKeyOf (key_a ∷ []) [] (extract_token bearer) context) × (key_enabled i.owner ≡ true))
authenticate_sound_example =
    authenticate_sound cfg idx (codes "/v1/responses") bearer codex context built let_in
