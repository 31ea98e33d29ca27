-- ===== src/Pipeline/Attempt.antt =====
-- internal/pipeline/stream.go: one attempt at an upstream, and internal/provider/retry.go.
-- What the upstream does is the argument: the result of `provider.Do`, and for a stream its lines
-- and how it ends.
use simple_api.Base.{
  ℕ, Bool, true, false, not, ◌&&◌, ◌||◌, Option, none, some, List, [], ◌∷◌, ◌++◌, eqb,
  if◌then◌else◌, ◌==◌, nat_eq, bool_eq, pair_eq, drop, is_empty, Text, codes, text_eq, has_prefix,
}
use simple_api.Base.Int64.{Int64, sle}
use simple_api.Config.{retry_codes}
use simple_api.Json.{Json}
use simple_api.Usage.{key_eq, Counts, no_counts}
use simple_api.Translate.{StreamState, new_state, Pair}
use simple_api.Pipeline.Errors.{extract_error_message}
use simple_api.Pipeline.Counts.{accumulate_usage}
use simple_api.Pipeline.Answer.{is_retryable_status}

-- How a stream ends: at its end, with a last line that may be empty; by a read error, behind the
-- bytes of a last line; by the idle timer; or because the client went away. The last two hold the
-- bytes that the upstream has sent and the loop has not taken, of a line that is not finished or that
-- waits in the channel.
pub data Ending : Type 0 where
  eof : Text → Ending
  read_error : Text → Text → Ending
  idle_timeout : Text → Ending
  disconnected : Text → Ending

pub data StreamUpstream : Type 0 where
  stream_call_failed : Text → StreamUpstream
  -- status, content type, whole body (read if the status is an error), lines taken, ending
  streamed : (status : Int64) (content_type body : Text) → List Text → Ending → StreamUpstream

-- The variables of the relay, with what was written to the client.
pub record Relay : Type 0 where
  pub committed : Bool
  pub written : List Text
  pub acc : Counts
  pub sink : Option Text
  pub state : StreamState

abbrev pub new_relay : Option Text → Relay
new_relay sink = record {
  committed = false;
  written = [];
  acc = no_counts;
  sink = sink;
  state = new_state;
}

pub record StreamResult : Type 0 where
  pub committed : Bool
  pub clean_complete : Bool
  pub retryable : Bool
  pub status : Int64
  pub counts : Counts
  pub error : Text
  -- the status line and the content type that were sent to the client
  pub head : Option (Int64 × Text)
  pub written : List Text
  pub sink : Option Text

-- `bytes.TrimRight` with a cutset.
unfoldable pub trim_right : (ℕ → Bool) → Text → Text
trim_right p [] = []
trim_right p (c ∷ s) = let rest = trim_right p s in if is_empty rest && p c then [] else c ∷ rest

abbrev pub drop_space : Text → Text
drop_space [] = []
drop_space (c ∷ s) = if eqb c b' ' then s else c ∷ s

-- The payload of a "data:" line; none is nil.
unfoldable pub data_payload : Text → Option Text
unfolding trim_right
data_payload line =
    let trimmed = trim_right (λ c. eqb c 13 || eqb c 10) line in
    if has_prefix trimmed (codes "data:")
    then some (trim_right (λ c. eqb c b' ' || eqb c 9) (drop_space (drop 5 trimmed)))
    else none

abbrev pub to_sink : Text → Option Text → Option Text
to_sink line none = none
to_sink line (some s) = some (s ++ line)

abbrev pub last_line : Ending → Text
last_line (eof line) = line
last_line (read_error line message) = line
last_line (idle_timeout pending) = []
last_line (disconnected pending) = []

-- What the loop does not take of what was sent.
abbrev pub lost : Ending → Text
lost (idle_timeout pending) = pending
lost (disconnected pending) = pending
lost _ = []

abbrev pub ending_error : Ending → Text
ending_error (eof line) = []
ending_error (read_error line message) = message
ending_error (idle_timeout pending) = codes "stream idle timeout"
ending_error (disconnected pending) = codes "client disconnected"

abbrev pub is_eof : Ending → Bool
is_eof (eof line) = true
is_eof _ = false

-- `rewrite_fragment` is `RewriteSSEFragment` for the client's model.
module _ (j : Json) (rewrite_fragment : Text → Text) (rewrite : Bool) (upstream_type : Text) where
  abbrev rewritten : Text → Text
  rewritten frag = if rewrite then rewrite_fragment frag else frag

  -- The closure `emit`, on what the transform returned; a missing result is an error.
  unfoldable pub emit : Option Text → Relay → Relay
  emit none r = r
  emit (some frag) r =
      if is_empty frag then r else record r { written = r.written ++ rewritten frag ∷ [] }

  abbrev pub transform : Pair → Option Text → Relay → Relay
  transform pair chunk r =
      let (frag, state) = pair.response_stream chunk r.state in
      emit frag (record r { state = state })

  abbrev pub count_usage : Text → Relay → Relay
  count_usage payload r = record r { acc = accumulate_usage j payload upstream_type r.acc }

  -- The two branches of `processLine` behind the archive.
  unfoldable pub pass_line : Text → Option Text → Relay → Relay
  unfolding accumulate_usage
  pass_line line none r = record r { written = r.written ++ rewritten line ∷ [] }
  pass_line line (some payload) r =
      let r' = record r { written = r.written ++ rewritten line ∷ [] } in
      if not (is_empty payload) && j.valid payload then count_usage payload r' else r'

  unfoldable pub translate_line : Pair → Option Text → Relay → Relay
  unfolding emit accumulate_usage
  translate_line pair none r = r
  translate_line pair (some payload) r =
      if payload == codes "[DONE]"
      then transform pair none r
      else if not (j.valid payload)
      then r
      else transform pair (some payload) (count_usage payload r)

  abbrev by_pair : Option Pair → Text → Relay → Relay
  by_pair none line r = pass_line line (data_payload line) r
  by_pair (some pair) line r = translate_line pair (data_payload line) r

  -- `processLine`.
  unfoldable pub process_line : Option Pair → Text → Relay → Relay
  unfolding pass_line translate_line data_payload
  process_line pair line r = by_pair pair line (record r { sink = to_sink line r.sink })

  -- A received line: the first that is not empty commits the response.
  unfoldable pub on_line : Option Pair → Text → Relay → Relay
  unfolding process_line
  on_line pair line r =
      if is_empty line then r else process_line pair line (record r { committed = true })

  unfoldable pub on_lines : Option Pair → List Text → Relay → Relay
  unfolding on_line
  on_lines pair [] r = r
  on_lines pair (l ∷ lines) r = on_lines pair lines (on_line pair l r)

  -- The values returned once the relay has ended.
  abbrev relayed : Int64 → Ending → Relay → StreamResult
  relayed status ending r = record {
    committed = r.committed;
    clean_complete = is_eof ending;
    retryable = not r.committed;
    status = status;
    counts = r.acc;
    error = ending_error ending;
    head = if r.committed then some (status, codes "text/event-stream") else none;
    written = r.written;
    sink = r.sink;
  }

  -- `attemptStream`.
  unfoldable pub attempt_stream :
      List Int64 → Option Pair → Option Text → StreamUpstream → StreamResult
  unfolding is_retryable_status on_lines extract_error_message
  attempt_stream retry_codes pair sink (stream_call_failed message) = record {
    committed = false;
    clean_complete = false;
    retryable = true;
    status = 0;
    counts = no_counts;
    error = message;
    head = none;
    written = [];
    sink = sink;
  }
  attempt_stream retry_codes pair sink (streamed status ct body lines ending) =
      if is_retryable_status status retry_codes
      then record {
        committed = false;
        clean_complete = false;
        retryable = true;
        status = status;
        counts = no_counts;
        error = extract_error_message j status body;
        head = none;
        written = [];
        sink = sink;
      }
      else if sle 400 status
      then record {
        committed = true;
        clean_complete = true;
        retryable = false;
        status = status;
        counts = no_counts;
        error = extract_error_message j status body;
        head = some (status, ct);
        written = body ∷ [];
        sink = sink;
      }
      else relayed status ending
          (on_line pair (last_line ending) (on_lines pair lines (new_relay sink)))
