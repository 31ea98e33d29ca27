-- ===== src/Pipeline/Records.antt =====
-- internal/pipeline/pipeline.go: `recordUsage` and `archiveRequest`.
use simple_api.Base.{ℕ, Bool, not, ◌||◌, Option, none, some, [], ◌∷◌, if◌then◌else◌, is_empty, Text}
use simple_api.Base.Int64.{Int64}
use simple_api.Config.{usage_enabled}
use simple_api.Json.{Json}
use simple_api.Usage.{Key, Counts, record_attempt}
use simple_api.Indexes.{ResolvedModel}
use simple_api.Archive.{enqueue}
use simple_api.CallLog
use simple_api.Pipeline.Counts.{finalize_counts, usage_node_for_body, parse_usage_node}
use simple_api.Pipeline.World.{World, Request, Outside}

module _ (j : Json) (q : Request) (out : Outside) where
  abbrev pub kept_counts : Option Text → Text → Counts → Counts
  kept_counts none type mined = mined
  kept_counts (some body) type mined =
      let node = usage_node_for_body j body type in
      if j.exists node then parse_usage_node j node type else mined

  abbrev pub usage_key : ResolvedModel → Int64 → Key
  usage_key rm status = record {
    provider = rm.provider_name;
    provider_type = rm.provider_type;
    alias_a = rm.alias_a;
    upstream_model = rm.upstream_model;
    internal_model_id = rm.internal_id;
    source_protocol = q.source;
    target_provider_type = rm.provider_type;
    http_status = status;
  }

  abbrev pub log_tokens : Counts → CallLog.Tokens
  log_tokens c = record {
    input_tokens = c.input;
    output_tokens = c.output;
    cache_read_tokens = c.cache_read;
    cache_creation_tokens = c.cache_creation;
    cached_tokens = c.cached;
    reasoning_tokens = c.reasoning;
    total_tokens = c.total;
  }

  abbrev pub log_item : ℕ → ResolvedModel → Text → Int64 → Counts → Bool → Text → CallLog.Entry
  log_item i rm alias status c failed error = record {
    request_id = q.request_id;
    timestamp = q.start;
    endpoint = q.endpoint;
    api_key = q.key.name;
    source_protocol = q.source;
    alias = alias;
    provider = rm.provider_name;
    provider_type = rm.provider_type;
    model = rm.upstream_model;
    internal_model = rm.internal_id;
    http_status = status;
    latency_ms = out.latency i;
    failed = failed || not (is_empty error);
    error = error;
    tokens = log_tokens c;
  }

  -- `recordUsage`, and the counts that it returns.
  unfoldable pub record_usage :
      ℕ → ResolvedModel → Text → Int64 → Option Text → Counts → Bool → Text → World → World × Counts
  unfolding usage_node_for_body parse_usage_node finalize_counts
  record_usage i rm alias status body mined failed error w =
      let c = finalize_counts (kept_counts body rm.provider_type mined) rm.provider_type in
      (
        record w {
          usage =
              if usage_enabled q.cfg.proxy
              then record_attempt (usage_key rm status) c failed w.usage
              else w.usage;
          call_log = CallLog.log_entry w.call_log (log_item i rm alias status c failed error);
        },
        c,
      )

  abbrev pub non_nil : Text → Option Text
  non_nil [] = none
  non_nil (c ∷ s) = some (c ∷ s)

  abbrev pub body_record : Option Text → Option Text → Option Text
  body_record none none = none
  body_record none (some response) = non_nil response
  body_record (some stream) response = none

  -- `archiveRequest`.
  unfoldable pub archive_request :
      ResolvedModel → Text → Counts → Text → (response stream : Option Text) → World → World
  unfolding enqueue
  archive_request rm alias c request response stream w =
      if is_empty q.cfg.archive_dir then w else record w {
        archive =
            enqueue
              (record {
                dir = q.cfg.archive_dir;
                timestamp = q.start;
                request_id = q.request_id;
                api_key = q.key.name;
                model = alias;
                internal_model = rm.internal_id;
                provider_type = rm.provider_type;
                tokens = c;
                request = request;
                response = body_record stream response;
                response_stream = stream;
              })
              w.archive;
      }
