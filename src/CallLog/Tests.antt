-- ===== src/CallLog/Tests.antt =====
-- Concrete runs of the call log.
use simple_api.Base.{ℕ, min, ◌≡◌, refl, false, [], ◌∷◌, arith, length, take, codes}
use simple_api.CallLog.{Entry, new_recorder, log_entry, recent}
use simple_api.CallLog.Ring.{log_all, as_read, shown, recent-log_all}

abbrev call : ℕ → Entry
call n = record {
  request_id = codes "req";
  timestamp = n;
  endpoint = codes "POST /v1/messages";
  api_key = codes "k";
  source_protocol = codes "anthropic";
  alias = codes "m";
  provider = codes "p";
  provider_type = codes "codex";
  model = codes "m";
  internal_model = codes "p/m";
  http_status = 200;
  latency_ms = n;
  failed = false;
  error = [];
  tokens = record {
    input_tokens = n;
    output_tokens = 0;
    cache_read_tokens = 0;
    cache_creation_tokens = 0;
    cached_tokens = 0;
    reasoning_tokens = 0;
    total_tokens = n;
  };
}

recent-log_all_example :
    recent (log_all 2 (call 3 ∷ call 2 ∷ call 1 ∷ [])) 5
    ≡ as_read (
        take
          (shown 5 (min 2 (length (call 3 ∷ call 2 ∷ call 1 ∷ []))))
          (call 3 ∷ call 2 ∷ call 1 ∷ []))
recent-log_all_example =
    recent-log_all 2 5 (call 3 ∷ call 2 ∷ call 1 ∷ []) (omega arith) (omega arith)

oldest_overwritten :
    recent (log_all 2 (call 3 ∷ call 2 ∷ call 1 ∷ [])) 0 ≡ as_read (call 3 ∷ call 2 ∷ [])
unfolding recent log_all log_entry new_recorder
oldest_overwritten = refl
