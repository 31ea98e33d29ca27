-- ===== src/Translate.antt =====
-- internal/translate/registry.go: the registry of translations, and the state that a
-- translation keeps through one stream.
pub mod Doc
pub mod Norm
pub mod Helpers
pub mod Anthropic
pub mod Openai
pub mod Codex
pub mod Views
pub mod Marshals
pub mod Bodies
pub mod Messages
pub mod Printed
mod BodyTests
pub mod Rounds
pub mod RoundTrip
pub mod Stream
pub mod Pairs
pub mod Blocks
pub mod Tools
mod Tests
use simple_api.Base.{ℕ, Bool, false, Option, [], nat_eq, bool_eq, pair_eq, Text, text_eq}
use simple_api.Base.Dict.{Map, lookup, insert}
use simple_api.Base.Int64.{Int64}

pub record ToolMeta : Type 0 where
  pub id : Text
  pub name : Text

-- `StreamState`. The model's maps of the open tool blocks are keyed by the block index.
pub record StreamState : Type 0 where
  pub message_started : Bool
  pub model : Text
  pub next_block_index : ℕ
  pub open_text_block : Bool
  pub open_tool_blocks : Map Int64 Bool
  pub tool_meta : Map Int64 ToolMeta
  pub tool_args : Map Int64 Text
  pub tool_index_seq : ℕ

abbrev pub new_state : StreamState
new_state = record {
  message_started = false;
  model = [];
  next_block_index = 0;
  open_text_block = false;
  open_tool_blocks = [];
  tool_meta = [];
  tool_args = [];
  tool_index_seq = 0;
}

-- `Pair`. A missing chunk is the nil chunk of the end of a stream; a missing result is an error.
pub record Pair : Type 0 where
  pub request : Text → Option Text
  pub response : Text → Option Text
  pub response_stream : Option Text → StreamState → Option Text × StreamState

abbrev pub Registry : Type 0
Registry = Map (Text × Text) Pair

-- `Register`, of a pair that is not nil, and `Get`.
unfoldable pub register : Text → Text → Pair → Registry → Registry
register from to p reg = insert (from, to) p reg

unfoldable pub get_pair : Text → Text → Registry → Option Pair
get_pair from to reg = lookup (from, to) reg
