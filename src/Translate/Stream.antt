-- ===== src/Translate/Stream.antt =====
-- internal/translate/stream.go: the six chunk transforms. An event is a constructor with the values
-- that vary; its JSON text is that of encoding/json. A nil chunk is the empty text.
use simple_api.Base.{
  ℕ, ◌+◌, Bool, true, false, not, ◌&&◌, ◌||◌, Option, none, some, List, [], ◌∷◌, ◌++◌,
  if◌then◌else◌, ◌==◌, nat_eq, bool_eq, pair_eq, is_empty, Text, codes, text_eq,
}
use simple_api.Base.Dict.{lookup, insert}
use simple_api.Base.Int64.{Int64}
use simple_api.Config.{get_or}
use simple_api.Json.{is_kind, Json, is_null}
use simple_api.Translate.Helpers.{map_finish_reason, unmap_finish_reason, ensure_json_object}
use simple_api.Translate.{ToolMeta, StreamState}

-- What `anthropicEvent` is called with.
pub data AnthropicEvent : Type 0 where
  message_start : (model : Text) → AnthropicEvent
  block_start : (index : ℕ) → AnthropicEvent
  block_delta : (index : ℕ) (text : Text) → AnthropicEvent
  block_stop : (index : ℕ) → AnthropicEvent
  message_delta : (stop_reason : Text) → AnthropicEvent
  message_stop : AnthropicEvent

-- What `openAIChunk` is called with, and the last line.
pub data OpenaiChunk : Type 0 where
  role_chunk : (model : Text) → OpenaiChunk
  content_chunk : (model text : Text) → OpenaiChunk
  tool_chunk : (model : Text) (index : ℕ) (id name arguments : Text) → OpenaiChunk
  finish_chunk : (model reason : Text) → OpenaiChunk
  done_line : OpenaiChunk

-- What `codexEvent` is called with.
pub data CodexEvent : Type 0 where
  response_created : (model : Text) → CodexEvent
  output_text_delta : (text : Text) → CodexEvent
  response_completed : (model : Text) → CodexEvent

-- One transform after another, on the state.
abbrev pub and_then :
    {E : Type 0}
    → (StreamState → List E × StreamState)
    → (StreamState → List E × StreamState)
    → StreamState
    → List E × StreamState
and_then f g st = ((f st).0 ++ (g (f st).1).0, (g (f st).1).1)

-- The chunks of a stream, through one transform.
unfoldable pub run_stream :
    {E : Type 0}
    → (Text → StreamState → List E × StreamState)
    → List Text
    → StreamState
    → List E × StreamState
run_stream f [] st = ([], st)
run_stream f (chunk ∷ chunks) st =
    let (events, st') = f chunk st in
    let (more, st'') = run_stream f chunks st' in (events ++ more, st'')

module _ (j : Json) where
  -- `finish.Exists() && finish.Type != gjson.Null`.
  abbrev pub is_finish : j.Node → Bool
  is_finish n = j.exists n && not (is_kind (j.kind n) is_null)

  abbrev pub take_model : Text → StreamState → StreamState
  take_model chunk st =
      let model = j.string (j.get chunk (codes "model")) in
      if not (is_empty model) then record st { model = model } else st

  -- The text of an openai delta; the empty text where there is none.
  abbrev pub delta_content : Text → Text
  delta_content chunk =
      let delta = j.get chunk (codes "choices.0.delta") in
      if j.exists delta then j.string (j.sub delta (codes "content")) else []

  -- The three parts of `streamOpenAIToAnthropic`.
  unfoldable pub start_message : StreamState → List AnthropicEvent × StreamState
  start_message st =
      if not st.message_started
      then (message_start st.model ∷ [], record st { message_started = true })
      else ([], st)

  unfoldable pub text_block : Text → StreamState → List AnthropicEvent × StreamState
  text_block c st = if is_empty c then ([], st) else (
    (if not st.open_text_block then block_start st.next_block_index ∷ [] else [])
        ++ block_delta st.next_block_index c ∷ [],
    record st { open_text_block = true },
  )

  unfoldable pub finish_message : j.Node → StreamState → List AnthropicEvent × StreamState
  finish_message finish st =
      let last = message_delta (map_finish_reason (j.string finish)) ∷ message_stop ∷ [] in
      if not (is_finish finish)
      then ([], st)
      else if st.open_text_block
      then (
        block_stop st.next_block_index ∷ last,
        record st { open_text_block = false; next_block_index = st.next_block_index + 1 },
      )
      else (last, st)

  -- `streamOpenAIToAnthropic`.
  unfoldable pub openai_to_anthropic : Text → StreamState → List AnthropicEvent × StreamState
  unfolding start_message text_block finish_message map_finish_reason
  openai_to_anthropic chunk st =
      and_then start_message
        (and_then (text_block (delta_content chunk))
          (finish_message (j.get chunk (codes "choices.0.finish_reason"))))
        (take_model chunk st)

  -- `streamCodexToAnthropic`.
  unfoldable pub codex_to_anthropic : Text → StreamState → List AnthropicEvent × StreamState
  codex_to_anthropic chunk st =
      let t = j.string (j.get chunk (codes "type")) in
      let model = j.string (j.get chunk (codes "response.model")) in
      if t == codes "response.created" || t == codes "response.in_progress"
      then (message_start model ∷ [], record st { model = model; message_started = true })
      else if t == codes "response.output_text.delta"
      then (
        (if not st.open_text_block then block_start st.next_block_index ∷ [] else [])
            ++ block_delta st.next_block_index (j.string (j.get chunk (codes "delta"))) ∷ [],
        record st { open_text_block = true },
      )
      else if t == codes "response.completed"
      then (
        (if st.open_text_block then block_stop st.next_block_index ∷ [] else [])
            ++ message_delta (codes "end_turn") ∷ message_stop ∷ [],
        record st { open_text_block = false },
      )
      else ([], st)

  -- `streamAnthropicToCodex`.
  unfoldable pub anthropic_to_codex : Text → StreamState → List CodexEvent × StreamState
  anthropic_to_codex chunk st =
      let t = j.string (j.get chunk (codes "type")) in
      let model = j.string (j.get chunk (codes "message.model")) in
      if t == codes "message_start"
      then (response_created model ∷ [], record st { model = model })
      else if t == codes "content_block_delta"
      then if j.string (j.get chunk (codes "delta.type")) == codes "text_delta"
        then (output_text_delta (j.string (j.get chunk (codes "delta.text"))) ∷ [], st)
        else ([], st)
      else if t == codes "message_delta"
      then (response_completed st.model ∷ [], st)
      else ([], st)

  -- `streamOpenAIToCodex`.
  unfoldable pub openai_to_codex : Text → StreamState → List CodexEvent × StreamState
  openai_to_codex chunk st =
      let st' = take_model chunk st in
      let c = delta_content chunk in
      (
        (if not st'.message_started then response_created st'.model ∷ [] else [])
            ++ ((if is_empty c then [] else output_text_delta c ∷ [])
                ++ (if is_finish (j.get chunk (codes "choices.0.finish_reason"))
                    then response_completed st'.model ∷ []
                    else [])),
        if not st'.message_started then record st' { message_started = true } else st',
      )

  -- `streamCodexToOpenAI`.
  unfoldable pub codex_to_openai : Text → StreamState → List OpenaiChunk × StreamState
  codex_to_openai chunk st =
      let t = j.string (j.get chunk (codes "type")) in
      let model = j.string (j.get chunk (codes "response.model")) in
      if t == codes "response.created"
      then (role_chunk model ∷ [], record st { model = model })
      else if t == codes "response.output_text.delta"
      then (content_chunk st.model (j.string (j.get chunk (codes "delta"))) ∷ [], st)
      else if t == codes "response.completed"
      then (finish_chunk st.model (codes "stop") ∷ done_line ∷ [], st)
      else ([], st)

  -- `chunkIndex`.
  abbrev pub chunk_index : Text → Int64
  chunk_index chunk = j.int_of (j.get chunk (codes "index"))

  abbrev pub stop_block : Int64 → Option ToolMeta → StreamState → List OpenaiChunk × StreamState
  stop_block idx none st = ([], st)
  stop_block idx (some meta) st = (
    tool_chunk st.model st.tool_index_seq meta.id meta.name
          (ensure_json_object j (get_or [] (lookup idx st.tool_args)))
        ∷ [],
    record st { tool_index_seq = st.tool_index_seq + 1 },
  )

  -- `streamAnthropicToOpenAI`.
  unfoldable pub anthropic_to_openai : Text → StreamState → List OpenaiChunk × StreamState
  unfolding ensure_json_object unmap_finish_reason
  anthropic_to_openai chunk st =
      let t = j.string (j.get chunk (codes "type")) in
      let model = j.string (j.get chunk (codes "message.model")) in
      let cb = j.get chunk (codes "content_block") in
      let dt = j.string (j.get chunk (codes "delta.type")) in
      let idx = chunk_index chunk in
      if t == codes "message_start"
      then (role_chunk model ∷ [], record st { message_started = true; model = model })
      else if t == codes "content_block_start"
      then if j.string (j.sub cb (codes "type")) == codes "tool_use"
        then (
          [],
          record st {
            tool_meta =
                insert idx
                  (record {
                    id = j.string (j.sub cb (codes "id"));
                    name = j.string (j.sub cb (codes "name"));
                  })
                  st.tool_meta;
          },
        )
        else ([], st)
      else if t == codes "content_block_delta"
      then if dt == codes "text_delta"
        then (content_chunk st.model (j.string (j.get chunk (codes "delta.text"))) ∷ [], st)
        else if dt == codes "input_json_delta"
        then (
          [],
          record st {
            tool_args =
                insert idx
                  (get_or [] (lookup idx st.tool_args)
                    ++ j.string (j.get chunk (codes "delta.partial_json")))
                  st.tool_args;
          },
        )
        else ([], st)
      else if t == codes "content_block_stop"
      then stop_block idx (lookup idx st.tool_meta) st
      else if t == codes "message_delta"
      then (
        finish_chunk st.model
              (unmap_finish_reason (j.string (j.get chunk (codes "delta.stop_reason"))))
            ∷ [],
        st,
      )
      else if t == codes "message_stop"
      then (done_line ∷ [], st)
      else ([], st)
