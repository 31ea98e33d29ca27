-- ===== src/Usage.antt =====
-- internal/usage/usage.go: request statistics by internal dimensions.
pub mod Totals
pub mod Report
mod Tests
use simple_api.Base.{
  ◌≡◌, ◌↔◌, Bool, true, not, ◌&&◌, Option, none, some, List, arith, if◌then◌else◌, Eq, ◌==◌, nat_eq,
  bool_eq, pair_eq, Text, text_beq_iff, text_eq, text_lt,
}
use simple_api.Base.Dict.{Map, lookup, insert}
use simple_api.Base.Int64.{Int64, add64, slt}
use simple_api.Base.Sort.{sort}

pub record Key : Type 0 where
  pub provider : Text
  pub provider_type : Text
  pub alias_a : Text
  pub upstream_model : Text
  pub internal_model_id : Text
  pub source_protocol : Text
  pub target_provider_type : Text
  pub http_status : Int64

abbrev pub key_beq : Key → Key → Bool
key_beq a b =
    a.provider == b.provider
    && (a.provider_type == b.provider_type
        && (a.alias_a == b.alias_a
            && (a.upstream_model == b.upstream_model
                && (a.internal_model_id == b.internal_model_id
                    && (a.source_protocol == b.source_protocol
                        && (a.target_provider_type == b.target_provider_type
                            && a.http_status == b.http_status))))))

pub key_beq_iff : (a b : Key) → (key_beq a b ≡ true) ↔ (a ≡ b)
key_beq_iff a b = ground (
  arith,
  text_beq_iff a.provider b.provider,
  text_beq_iff a.provider_type b.provider_type,
  text_beq_iff a.alias_a b.alias_a,
  text_beq_iff a.upstream_model b.upstream_model,
  text_beq_iff a.internal_model_id b.internal_model_id,
  text_beq_iff a.source_protocol b.source_protocol,
  text_beq_iff a.target_provider_type b.target_provider_type,
)

instance abbrev pub key_eq : Eq Key
key_eq = record { same = key_beq; same_iff = key_beq_iff }

-- The token counts of one upstream attempt.
pub record Counts : Type 0 where
  pub input : Int64
  pub output : Int64
  pub cache_read : Int64
  pub cache_creation : Int64
  pub cached : Int64
  pub reasoning : Int64
  pub total : Int64

-- `agg`.
pub record Agg : Type 0 where
  pub requests : Int64
  pub failures : Int64
  pub tokens : Counts

abbrev pub no_counts : Counts
no_counts = record {
  input = 0;
  output = 0;
  cache_read = 0;
  cache_creation = 0;
  cached = 0;
  reasoning = 0;
  total = 0;
}

abbrev pub no_agg : Agg
no_agg = record { requests = 0; failures = 0; tokens = no_counts }

abbrev pub add_counts : Counts → Counts → Counts
add_counts a c = record {
  input = add64 a.input c.input;
  output = add64 a.output c.output;
  cache_read = add64 a.cache_read c.cache_read;
  cache_creation = add64 a.cache_creation c.cache_creation;
  cached = add64 a.cached c.cached;
  reasoning = add64 a.reasoning c.reasoning;
  total = add64 a.total c.total;
}

abbrev pub add_attempt : Agg → Counts → Bool → Agg
add_attempt a c failed = record {
  requests = add64 a.requests 1;
  failures = if failed then add64 a.failures 1 else a.failures;
  tokens = add_counts a.tokens c;
}

abbrev pub agg_or_new : Option Agg → Agg
agg_or_new none = no_agg
agg_or_new (some a) = a

abbrev pub Recorder : Type 0
Recorder = Map Key Agg

-- `Record`.
unfoldable pub record_attempt : Key → Counts → Bool → Recorder → Recorder
record_attempt k c failed m = insert k (add_attempt (agg_or_new (lookup k m)) c failed) m

-- `Item`: a row of the snapshot.
abbrev pub Item : Type 0
Item = Key × Agg

abbrev pub item_before : Item → Item → Bool
item_before a b =
    if not (a.0.internal_model_id == b.0.internal_model_id)
    then text_lt a.0.internal_model_id b.0.internal_model_id
    else if not (a.0.source_protocol == b.0.source_protocol)
    then text_lt a.0.source_protocol b.0.source_protocol
    else slt a.0.http_status b.0.http_status

-- `Snapshot`. Rows that the order does not separate stand as the map was read.
unfoldable pub snapshot : Recorder → List Item
snapshot m = sort item_before m
