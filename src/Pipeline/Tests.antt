-- ===== src/Pipeline/Tests.antt =====
-- A request with one candidate, over a stand-in for the JSON libraries.
use simple_api.Pipeline.Counts.{accumulate_usage}
use simple_api.Base.{
  ◌≤◌, ◌≡◌, refl, ◌≢◌, true, false, none, some, [], ◌∷◌, ◌++◌, nat_eq, bool_eq, pair_eq, length,
  All, codes, text_eq, contains_byte,
}
use simple_api.Config.{anthropic, openai_completion, codex, is_valid_protocol, Config}
use simple_api.Json.Plain.{plain}
use simple_api.Json.{Json}
use simple_api.Archive.{new_writer}
use simple_api.Indexes.{resolve_upstream, Indexes, provider_entry}
use simple_api.Limiter
use simple_api.Usage.{key_eq, no_counts}
use simple_api.Base.Spaces.{trim_space}
use simple_api.Pipeline.Errors.{print_int, extract_error_message}
use simple_api.Pipeline.Reasons.{length-extract_error_message}
use simple_api.Pipeline.Relay.{concat, attempt_stream-sink, attempt_stream-written}
use simple_api.Pipeline.Merge.{IsMerge, event_counts, accumulate_all, accumulate_all-IsMerge}
use simple_api.Base.Dict.{lookup}
use simple_api.Config.Validate.{validate}
use simple_api.Translate.Pairs.{Printer, pairs}
use simple_api.Pipeline.Routes.{validate-route_to}
use simple_api.Pipeline.Attempt.{
  to_sink, attempt_stream, idle_timeout, disconnected, stream_call_failed, streamed,
}
use simple_api.Pipeline.Answer.{is_retryable_status, responded}
use simple_api.Pipeline.World.{World, Request, Outside, route_to, refused}
use simple_api.Pipeline.Serve.{serve_proxy}
use simple_api.Pipeline.Slots.{serve_proxy-IsAnswered}
use simple_api.Pipeline.Leads.{IsAnswered}
use simple_api.Limiter.Counting.{IsCounted, run, run-IsCounted}

abbrev cfg : Config
cfg = record {
  version = 1;
  server = record {
    listen = none;
    request_timeout_seconds = none;
    stream_idle_timeout_seconds = none;
  };
  proxy = record {
    max_consecutive_failures = none;
    failure_reset_seconds = none;
    rewrite_response_model = none;
    usage_statistics_enabled = none;
    upstream_retry_status_codes = [];
    call_log_max_entries = none;
  };
  management = record { enabled = none; base_path = []; admin_key = [] };
  archive_dir = codes "d";
  payload = record {
    default = [];
    default_raw = [];
    override = [];
    override_raw = [];
    filter = [];
  };
  providers = [];
  api_keys = [];
}

abbrev idx : Indexes
idx = record {
  providers =
      (
        codes "p",
        record {
          name = codes "p";
          type = codex;
          url = codes "u";
          urls = [];
          key = [];
          headers = [];
          max_concurrency = 1;
        },
      )
      ∷ [];
  models =
      (
        codes "p/m",
        record {
          provider_name = codes "p";
          provider_type = codex;
          upstream_model = codes "m";
          alias_a = codes "m";
          internal_id = codes "p/m";
        },
      )
      ∷ [];
  keys = [];
  key_by_name = [];
  internal_ids = [];
}

abbrev request : Request
request = record {
  cfg = cfg;
  idx = idx;
  pairs = [];
  key = record {
    name = codes "c";
    key = codes "t";
    disabled = false;
    allowed_protocols = codex ∷ [];
    routing =
        (
          codes "x",
          record { internal_id = codes "p/m"; alias_b = codes "x"; priority = 0; order = 0 } ∷ [],
        )
        ∷ [];
    wildcards = [];
    alias_bs = codes "x" ∷ [];
  };
  source = codex;
  body = some (codes "x");
  header = λ k. [];
  request_id = codes "req-1";
  endpoint = codes "POST /v1/responses";
  start = 0;
}

abbrev outside : Outside
outside = record {
  now = λ i. 1000;
  answered_at = λ i. 2000;
  latency = λ i. 3;
  upstream = λ i pe body. responded 200 [] (codes "ok");
  stream_upstream = λ i pe body. stream_call_failed [];
}

abbrev world : World
world = record {
  limiter = Limiter.new;
  failover = [];
  usage = [];
  call_log = record { buf = none ∷ []; head = 0; count = 0; capacity = 1 };
  archive = new_writer;
  replies = [];
}

unused-IsCounted : IsCounted world.limiter
unfolding run
unused-IsCounted = run-IsCounted []

serve_proxy-IsAnswered_example : IsAnswered world (serve_proxy plain request outside world)
serve_proxy-IsAnswered_example = serve_proxy-IsAnswered plain request outside world unused-IsCounted

attempt_stream-sink_example :
    to_sink
      (codes "data")
      (attempt_stream plain
        (λ t. t)
        true
        codex
        []
        none
        (some [])
        (streamed 200 [] [] (codes "data: x" ∷ []) (disconnected (codes "data")))).sink
    ≡ some (codes "data: xdata")
unfolding concat
attempt_stream-sink_example =
    attempt_stream-sink plain (λ t. t) true codex [] none (some []) 200 [] [] (codes "data: x" ∷ [])
      (disconnected (codes "data")) (unfold is_retryable_status in refl) refl

attempt_stream-written_example :
    concat
        (attempt_stream plain
          (λ t. t)
          false
          codex
          []
          none
          none
          (streamed 200 [] [] (codes "data: x" ∷ []) (idle_timeout (codes "data")))).written
      ++ codes "data"
    ≡ codes "data: xdata"
unfolding concat
attempt_stream-written_example =
    attempt_stream-written plain (λ t. t) codex [] none 200 [] [] (codes "data: x" ∷ [])
      (idle_timeout (codes "data")) (unfold is_retryable_status in refl) refl

-- Every field is there, and counts the bytes of the document.
abbrev counting : Json
counting = record plain { int_of = λ node. length node }

counted :
    (accumulate_all counting openai_completion (codes "xy" ∷ codes "z" ∷ []) no_counts).input ≡ 1
unfolding accumulate_usage
counted = refl

accumulate_all-IsMerge_example :
    IsMerge
      (accumulate_all counting openai_completion (codes "xy" ∷ codes "z" ∷ []) no_counts)
      no_counts
      (event_counts counting openai_completion (codes "xy" ∷ codes "z" ∷ []))
accumulate_all-IsMerge_example =
    accumulate_all-IsMerge counting openai_completion (codes "xy" ∷ codes "z" ∷ []) no_counts

abbrev served : Config
served = record cfg {
  server = record {
    listen = some (codes "l");
    request_timeout_seconds = none;
    stream_idle_timeout_seconds = none;
  };
  management = record { enabled = none; base_path = []; admin_key = codes "k" };
  providers =
      record {
        name = codes "p";
        type = codex;
        url = codes "u";
        urls = (anthropic, codes "n") ∷ [];
        key = [];
        headers = [];
        max_concurrency = none;
        models = [];
      }
      ∷ [];
}

served_valid : validate (λ s. true) served ≡ []
unfolding validate contains_byte lookup
served_valid = refl

abbrev printer : Printer
printer = record {
  anthropic_text = λ e. [];
  openai_text = λ e. [];
  codex_text = λ e. [];
  marshal = record { takes = λ t. true; text = λ d. [] };
}

validate-route_to_example :
    All
      (λ p.
        route_to
          (pairs plain printer)
          openai_completion
          (resolve_upstream (provider_entry p) openai_completion).type
        ≢ refused)
      served.providers
validate-route_to_example =
    validate-route_to plain printer (λ s. true) served openai_completion served_valid
      (unfold is_valid_protocol in refl)

-- Over a stand-in that reads no body.
abbrev no_json : Json
no_json = record plain { valid = λ body. false }

length-extract_error_message_example :
    length (extract_error_message no_json 502 (codes " \n")) ≤ 503
length-extract_error_message_example = length-extract_error_message no_json 502 (codes " \n")

status_text : extract_error_message no_json 502 (codes " \n") ≡ codes "upstream returned HTTP 502"
unfolding extract_error_message print_int trim_space
status_text = refl
