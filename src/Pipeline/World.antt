-- ===== src/Pipeline/World.antt =====
-- internal/pipeline/pipeline.go: a request, the long-lived objects that it uses, and the loop's variables.
use simple_api.Base.{
  ℕ, Bool, not, Option, none, some, List, [], ◌∷◌, ◌++◌, if◌then◌else◌, ◌==◌, nat_eq, bool_eq,
  pair_eq, Text, text_eq,
}
use simple_api.Base.Int64.{Int64}
use simple_api.Config.{call_log_max, Config}
use simple_api.Usage.{key_eq, Recorder}
use simple_api.Translate.{Pair, Registry, get_pair}
use simple_api.Indexes.{ProviderEntry, KeyContext, Indexes}
use simple_api.Archive.{Writer, new_writer}
use simple_api.Limiter
use simple_api.Failover
use simple_api.CallLog
use simple_api.Pipeline.Attempt.{StreamUpstream}
use simple_api.Pipeline.Answer.{Upstream}

-- What a client is sent: an error envelope, a body, or a stream's head with its fragments.
pub data Reply : Type 0 where
  error_reply : Int64 → Text → Reply
  data_reply : Int64 → Text → Text → Reply
  stream_reply : Int64 × Text → List Text → Reply

-- The long-lived objects of the runtime, and the replies written so far.
pub record World : Type 0 where
  pub limiter : Limiter.Limiter
  pub failover : Failover.Counter
  pub usage : Recorder
  pub call_log : CallLog.Recorder
  pub archive : Writer
  pub replies : List Reply

-- The long-lived objects that `New` of internal/runtime makes.
unfoldable pub new_world : Config → World
new_world cfg = record {
  limiter = Limiter.new;
  failover = [];
  usage = [];
  call_log = CallLog.new_recorder (call_log_max cfg.proxy);
  archive = new_writer;
  replies = [];
}

abbrev pub reply : Reply → World → World
reply r w = record w { replies = w.replies ++ r ∷ [] }

-- A request behind the authentication, with the snapshot that it took.
pub record Request : Type 0 where
  pub cfg : Config
  pub idx : Indexes
  pub pairs : Registry
  pub key : KeyContext
  pub source : Text
  -- none if the body could not be read
  pub body : Option Text
  pub header : Text → Text
  pub request_id : Text
  pub endpoint : Text
  pub start : ℕ

-- What happens outside, at the candidate with the given position.
pub record Outside : Type 0 where
  -- the clock when `ShouldSkip` reads it, and when `OnFailure` does
  pub now : ℕ → ℕ
  pub answered_at : ℕ → ℕ
  pub latency : ℕ → Int64
  pub upstream : ℕ → ProviderEntry → Text → Upstream
  pub stream_upstream : ℕ → ProviderEntry → Text → StreamUpstream

-- The variables of the candidate loop.
pub record Loop : Type 0 where
  pub busy : Bool
  pub sink : Option Text
  pub world : World

pub data Step : Type 0 where
  continue : Loop → Step
  return : World → Step

-- The registry's answer for a candidate: a translation, none where the protocols agree, or `refused`.
pub data Route : Type 0 where
  pass : Route
  through : Pair → Route
  refused : Route

abbrev pub by_registry : Option Pair → Route
by_registry none = refused
by_registry (some p) = through p

unfoldable pub route_to : Registry → Text → Text → Route
unfolding get_pair
route_to pairs source target =
    if not (target == source) then by_registry (get_pair source target pairs) else pass
