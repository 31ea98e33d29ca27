-- ===== src/CallLog.antt =====
-- internal/calllog/calllog.go: a ring buffer of the most recent upstream attempts.
pub mod Ring
mod Tests
use simple_api.Base.{
  ℕ, zero, suc, ◌+◌, ◌-◌, ◌%◌, Bool, not, ◌||◌, Option, none, some, List, [], ◌∷◌, ltb,
  if◌then◌else◌, ◌==◌, nat_eq, bool_eq, pair_eq, get_elem?, set, replicate, Text, text_eq,
}
use simple_api.Base.Int64.{Int64, slt, positive}

pub record Tokens : Type 0 where
  pub input_tokens : Int64
  pub output_tokens : Int64
  pub cache_read_tokens : Int64
  pub cache_creation_tokens : Int64
  pub cached_tokens : Int64
  pub reasoning_tokens : Int64
  pub total_tokens : Int64

pub record Entry : Type 0 where
  pub request_id : Text
  pub timestamp : ℕ
  pub endpoint : Text
  pub api_key : Text
  pub source_protocol : Text
  pub alias : Text
  pub provider : Text
  pub provider_type : Text
  pub model : Text
  pub internal_model : Text
  pub http_status : Int64
  pub latency_ms : Int64
  pub failed : Bool
  pub error : Text
  pub tokens : Tokens

-- `none` is a slot that `make` left zero and that no entry was written to.
pub record Recorder : Type 0 where
  pub buf : List (Option Entry)
  pub head : ℕ
  pub count : ℕ
  pub capacity : ℕ

-- `NewRecorder`.
unfoldable pub new_recorder : Int64 → Recorder
new_recorder capacity =
    let cap = if slt capacity 0 then 0 else capacity in
    record { buf = replicate cap none; head = 0; count = 0; capacity = cap }

-- `Enabled`, of a recorder that is not nil.
unfoldable pub is_enabled : Recorder → Bool
is_enabled r = ltb 0 r.capacity

-- `Record`.
unfoldable pub log_entry : Recorder → Entry → Recorder
unfolding is_enabled
log_entry r e = if not (is_enabled r) then r else record {
  buf = set r.buf r.head (some e);
  head = (r.head + 1) % r.capacity;
  count = if ltb r.count r.capacity then r.count + 1 else r.count;
  capacity = r.capacity;
}

-- The loop of `Recent` from its round `i` on; `n` rounds are left. A read out of range, which
-- would panic, is a missing value.
pub recent_from : Recorder → ℕ → ℕ → List (Option (Option Entry))
recent_from r i zero = []
recent_from r i (suc n) =
    get_elem? r.buf ((r.head + r.capacity - 1 - i) % r.capacity) ∷ recent_from r (suc i) n

-- `Recent`.
unfoldable pub recent : Recorder → Int64 → List (Option (Option Entry))
unfolding is_enabled recent_from
recent r limit =
    if not (is_enabled r) || r.count == 0
    then []
    else recent_from r 0 (if not (positive limit) || slt r.count limit then r.count else limit)
