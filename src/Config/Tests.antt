-- ===== src/Config/Tests.antt =====
-- A small config, and runs of the validation on it.
use simple_api.Base.{
  ◌≡◌, refl, true, false, Option, none, some, [], ◌∷◌, ◌++◌, if◌then◌else◌, ◌==◌, nat_eq, bool_eq,
  pair_eq, Text, codes, text_eq, has_prefix, index, index_byte, contains_byte,
}
use simple_api.Base.Dict.{lookup, insert, delete}
use simple_api.Config.{
  anthropic, codex, ProviderModel, Provider, Config, effective_alias_a, model_internal_id,
  parse_internal_model_id,
}
use simple_api.Config.Payload.{ve, field, index_at}
use simple_api.Config.Validate.{validate}
use simple_api.Config.Env.{value_of, expand_env}
use simple_api.Config.Expansion.{close_brace, expand_env-append}
use simple_api.Config.Names.{parse_internal_model_id-model_internal_id}
use simple_api.Config.Atomic.{System, rename, write_file_atomic, final}
use simple_api.Config.Untouched.{Replaces, write_file_atomic-Replaces}

abbrev model_a : ProviderModel
model_a = record { model = codes "m1"; alias_a = codes "a/1" }

abbrev provider_p : Provider
provider_p = record {
  name = codes "p";
  type = codex;
  url = codes "u";
  urls = (anthropic, codes "n") ∷ [];
  key = codes "s";
  headers = [];
  max_concurrency = some 2;
  models = model_a ∷ [];
}

abbrev small : Config
small = record {
  version = 1;
  server = record {
    listen = some (codes "l");
    request_timeout_seconds = none;
    stream_idle_timeout_seconds = none;
  };
  proxy = record {
    max_consecutive_failures = none;
    failure_reset_seconds = none;
    rewrite_response_model = none;
    usage_statistics_enabled = none;
    upstream_retry_status_codes = [];
    call_log_max_entries = none;
  };
  management = record { enabled = none; base_path = []; admin_key = codes "k" };
  archive_dir = [];
  payload = record {
    default = [];
    default_raw = [];
    override = [];
    override_raw = [];
    filter = [];
  };
  providers = provider_p ∷ [];
  api_keys =
      record {
        name = codes "c";
        key = codes "t";
        enabled = none;
        allowed_protocols = codex ∷ [];
        models = record { model = codes "p/a/1"; alias_b = codes "x*"; priority = 1 } ∷ [];
      }
      ∷ [];
}

small_valid : validate (λ s. true) small ≡ []
unfolding validate contains_byte lookup
small_valid = refl

unknown_model :
    validate (λ s. true) (record small { providers = [] })
    ≡ ve
        (field (codes "api_keys")
          ∷ index_at 0
          ∷ field (codes "models")
          ∷ index_at 0
          ∷ field (codes "model")
          ∷ [])
        (codes "model_not_found")
      ∷ []
unfolding validate contains_byte lookup
unknown_model = refl

parse_internal_model_id-model_internal_id_example :
    parse_internal_model_id (model_internal_id (codes "p") model_a)
    ≡ some (codes "p", effective_alias_a model_a)
parse_internal_model_id-model_internal_id_example =
    parse_internal_model_id-model_internal_id (codes "p") model_a (λ e. cc)
      (unfold contains_byte in refl) (λ e. cc)

abbrev home : Text → Option Text
home name = if name == codes "HOME" then some (codes "${x}") else none

expand_env-append_example :
    expand_env home (codes "a" ++ (codes "${" ++ (codes "HOME:-d" ++ close_brace ∷ codes "b")))
    ≡ codes "a" ++ (value_of home (codes "HOME:-d") ++ expand_env home (codes "b"))
expand_env-append_example =
    expand_env-append home (codes "a") (codes "HOME:-d") (codes "b") (unfold contains_byte in refl)
      (unfold contains_byte in refl)

-- The value of a variable is not expanded in turn.
not_again : expand_env home (codes "${HOME}") ≡ codes "${x}"
unfolding expand_env has_prefix index_byte index
not_again = refl

-- A system on which the rename fails.
abbrev no_rename : System
no_rename = record {
  temp = some (codes "c.tmp.1");
  failed_write = none;
  syncs = true;
  closes = true;
  chmods = true;
  renames = false;
  removes = true;
}

write_file_atomic-Replaces_example :
    Replaces no_rename
      (codes "c")
      (codes "new")
      (codes "c.tmp.1")
      (codes "d")
      ((codes "c", codes "old") ∷ [])
      ((codes "c", codes "old") ∷ [])
      (write_file_atomic no_rename (codes "c") (codes "new") ((codes "c", codes "old") ∷ []))
write_file_atomic-Replaces_example =
    write_file_atomic-Replaces no_rename (codes "c") (codes "new") (codes "c.tmp.1") (codes "d")
      ((codes "c", codes "old") ∷ []) refl refl refl refl

abbrev full_system : System
full_system = record no_rename { renames = true }

replaced :
    final
      (write_file_atomic full_system (codes "c") (codes "new") ((codes "c", codes "old") ∷ [])).0
      []
    ≡ (codes "c", codes "new") ∷ []
unfolding write_file_atomic insert delete rename lookup
replaced = refl
