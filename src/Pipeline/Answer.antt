-- ===== src/Pipeline/Answer.antt =====
-- internal/pipeline/stream.go: one attempt without a stream, and internal/provider/retry.go.
use simple_api.Base.{
  Bool, true, false, ◌&&◌, Option, none, some, List, [], ◌∷◌, eqb, if◌then◌else◌, Text,
}
use simple_api.Base.Int64.{Int64, slt, sle}
use simple_api.Config.{retry_codes}
use simple_api.Json.{Json, or_keep}
use simple_api.Translate.{Pair}
use simple_api.Pipeline.Errors.{extract_error_message}

-- `IsRetryableStatus`.
unfoldable pub is_retryable_status : Int64 → List Int64 → Bool
is_retryable_status code [] = false
is_retryable_status code (rc ∷ rcs) = if eqb code rc then true else is_retryable_status code rcs

abbrev pub is_success : Int64 → Bool
is_success status = sle 200 status && slt status 300

-- What the upstream does with a request that is not streamed.
pub data Upstream : Type 0 where
  call_failed : Text → Upstream
  read_failed : Text → Upstream
  responded : (status : Int64) (content_type body : Text) → Upstream

pub record Answer : Type 0 where
  pub status : Int64
  pub content_type : Text
  pub body : Text
  -- the body before translation; none is nil
  pub raw : Option Text
  pub retryable : Bool
  pub error : Text

abbrev pub failed_call : Text → Answer
failed_call message = record {
  status = 0;
  content_type = [];
  body = [];
  raw = none;
  retryable = true;
  error = message;
}

abbrev pub translated : Option Pair → Int64 → Text → Text
translated none status body = body
translated (some pair) status body =
    if is_success status then or_keep body (pair.response body) else body

-- `attemptNonStream`.
unfoldable pub attempt_non_stream : Json → List Int64 → Option Pair → Upstream → Answer
unfolding is_retryable_status extract_error_message
attempt_non_stream j retry_codes pair (call_failed message) = failed_call message
attempt_non_stream j retry_codes pair (read_failed message) = failed_call message
attempt_non_stream j retry_codes pair (responded status ct body) =
    if is_retryable_status status retry_codes
    then record {
      status = status;
      content_type = ct;
      body = body;
      raw = some body;
      retryable = true;
      error = extract_error_message j status body;
    }
    else if sle 400 status
    then record {
      status = status;
      content_type = ct;
      body = body;
      raw = some body;
      retryable = false;
      error = extract_error_message j status body;
    }
    else record {
      status = status;
      content_type = ct;
      body = translated pair status body;
      raw = some body;
      retryable = false;
      error = [];
    }
