-- ===== src/Translate/Blocks.antt =====
-- What an Anthropic client reads of a translated stream.
use simple_api.Base.{
  ℕ, ◌+◌, ◌≡◌, refl, sym, ap, ◌∙◌, inl, inr, Bool, true, false, not, ◌&&◌, Option, none, some, List,
  [], ◌∷◌, ◌++◌, append-nil, append_assoc, arith, eqb, Bool-cases, Option-cases, Text, codes,
}
use simple_api.Json.{Json}
use simple_api.Translate.{StreamState, new_state}
use simple_api.Translate.Stream.{
  AnthropicEvent, and_then, run_stream, take_model, delta_content, start_message, text_block,
  finish_message, openai_to_anthropic, message_start, block_start, block_delta, block_stop,
  message_delta, message_stop,
}

-- A client of the Anthropic protocol, which takes each event or refuses the stream. A block is open
-- between its start and its stop; the blocks have the indices 0, 1, 2, and so on.
pub record Reader : Type 0 where
  pub started : Bool
  pub in_block : Bool
  pub next : ℕ

abbrev pub new_reader : Reader
new_reader = record { started = false; in_block = false; next = 0 }

abbrev pub when : Bool → Reader → Option Reader
when true r = some r
when false r = none

unfoldable pub read : AnthropicEvent → Reader → Option Reader
read (message_start model) r = when (not r.started) (record r { started = true })
read (block_start i) r =
    when (r.started && (not r.in_block && eqb i r.next)) (record r { in_block = true })
read (block_delta i text) r = when (r.in_block && eqb i r.next) r
read (block_stop i) r =
    when (r.in_block && eqb i r.next) (record r { in_block = false; next = r.next + 1 })
read (message_delta reason) r = when (r.started && not r.in_block) r
read message_stop r = when (r.started && not r.in_block) r

unfoldable pub read_all : List AnthropicEvent → Reader → Option Reader
unfolding read
read_all [] r = some r
read_all (e ∷ es) r = elim (read e r) [ none ↦ none | some r' ↦ read_all es r' ]

read_all-append :
    (xs ys : List AnthropicEvent) (r r' : Reader)
    → read_all xs r ≡ some r'
    → read_all (xs ++ ys) r ≡ read_all ys r'
unfolding read_all
read_all-append [] ys r r' h = cc
read_all-append (e ∷ xs) ys r r' h = elim (Option-cases (read e r)) [
  | inl refused ↦ let k = rw (refused, read_all) at h in cc
  | inr (r1, taken) ↦ rw (taken, read_all) (read_all-append xs ys r1 r' (rw (taken, read_all) at h))
]

-- The client's state, as the stream's state has it.
abbrev pub reader_of : StreamState → Reader
reader_of st = record {
  started = st.message_started;
  in_block = st.open_text_block;
  next = st.next_block_index;
}

-- What was emitted is taken, up to the state afterwards.
abbrev Reads : StreamState → List AnthropicEvent × StreamState → Type 0
Reads st r = read_all r.0 (reader_of st) ≡ some (reader_of r.1)

and_then-Reads :
    (f g : StreamState → List AnthropicEvent × StreamState) (st : StreamState)
    → Reads st (f st)
    → Reads (f st).1 (g (f st).1)
    → Reads st (and_then f g st)
and_then-Reads f g st p q = read_all-append (f st).0 _ _ _ p ∙ q

module _ (j : Json) where
  start_message-Reads : (st : StreamState) → Reads st (start_message j st)
  unfolding start_message read_all read
  start_message-Reads st = ground arith

  text_block-Reads :
      (c : Text) (st : StreamState) → st.message_started ≡ true → Reads st (text_block j c st)
  unfolding text_block read_all read
  text_block-Reads c st h = ground arith

  finish_message-Reads :
      (n : j.Node) (st : StreamState) → st.message_started ≡ true → Reads st (finish_message j n st)
  unfolding finish_message read_all read
  finish_message-Reads n st h = ground arith

  start_message-started : (st : StreamState) → (start_message j st).1.message_started ≡ true
  unfolding start_message
  start_message-started st = ground arith

  text_block-started :
      (c : Text) (st : StreamState) → (text_block j c st).1.message_started ≡ st.message_started
  unfolding text_block
  text_block-started c st = ground arith

  take_model-reader :
      (chunk : Text) (st : StreamState) → reader_of (take_model j chunk st) ≡ reader_of st
  take_model-reader chunk st = ground arith

  openai_to_anthropic-Reads :
      (chunk : Text) (st : StreamState) → Reads st (openai_to_anthropic j chunk st)
  unfolding openai_to_anthropic
  openai_to_anthropic-Reads chunk st =
      let st' = take_model j chunk st in
      let st1 = (start_message j st').1 in
      let begun = start_message-started st' in
      let text = text_block j (delta_content j chunk) in
      let finish = j.get chunk (codes "choices.0.finish_reason") in
      let rest =
        and_then-Reads text (finish_message j finish) st1
          (text_block-Reads (delta_content j chunk) st1 begun)
          (finish_message-Reads finish (text st1).1
            (text_block-started (delta_content j chunk) st1 ∙ begun)) in
      rw (← take_model-reader chunk st) (
        and_then-Reads (start_message j) (and_then text (finish_message j finish)) st'
          (start_message-Reads st') rest)

  run_stream-Reads :
      (f : Text → StreamState → List AnthropicEvent × StreamState)
      → ((chunk : Text) (st : StreamState) → Reads st (f chunk st))
      → (chunks : List Text) (st : StreamState) → Reads st (run_stream f chunks st)
  unfolding run_stream read_all
  run_stream-Reads f reads [] st = refl
  run_stream-Reads f reads (chunk ∷ chunks) st =
      and_then-Reads (f chunk) (run_stream f chunks) st (reads chunk st)
        (run_stream-Reads f reads chunks (f chunk st).1)

  -- Whatever chunks an openai upstream sends, and however the JSON library reads them, an Anthropic
  -- client takes all that `streamOpenAIToAnthropic` makes of them: one message_start before all
  -- else, text only in an open block with the block's index, blocks one after another with the
  -- indices 0, 1, 2, ..., and message_delta and message_stop only while no block is open.
  pub openai_to_anthropic-read_all :
      (chunks : List Text)
      → read_all (run_stream (openai_to_anthropic j) chunks new_state).0 new_reader
        ≡ some (reader_of (run_stream (openai_to_anthropic j) chunks new_state).1)
  openai_to_anthropic-read_all chunks =
      run_stream-Reads (openai_to_anthropic j) openai_to_anthropic-Reads chunks new_state

-- The text that the events carry.
abbrev event_text : AnthropicEvent → Text
event_text (block_delta i text) = text
event_text _ = []

unfoldable pub text_of : List AnthropicEvent → Text
text_of [] = []
text_of (e ∷ es) = event_text e ++ text_of es

text_of-append : (xs ys : List AnthropicEvent) → text_of (xs ++ ys) ≡ text_of xs ++ text_of ys
unfolding text_of
text_of-append [] ys = refl
text_of-append (e ∷ xs) ys =
    ap (λ t. event_text e ++ t) (text_of-append xs ys)
    ∙ sym (append_assoc (event_text e) (text_of xs) (text_of ys))

-- The texts of the chunks, one after another.
unfoldable pub content_of : Json → List Text → Text
content_of j [] = []
content_of j (chunk ∷ chunks) = delta_content j chunk ++ content_of j chunks

module _ (j : Json) where
  start_message-text : (st : StreamState) → text_of (start_message j st).0 ≡ []
  unfolding start_message text_of
  start_message-text st = ground arith

  text_block-text : (c : Text) (st : StreamState) → text_of (text_block j c st).0 ≡ c
  unfolding text_block text_of
  text_block-text [] st = refl
  text_block-text (b ∷ c) st = elim (Bool-cases st.open_text_block) [
    | inl on ↦ rw on (append-nil (b ∷ c))
    | inr off ↦ rw off (append-nil (b ∷ c))
  ]

  finish_message-text : (n : j.Node) (st : StreamState) → text_of (finish_message j n st).0 ≡ []
  unfolding finish_message text_of
  finish_message-text n st = ground arith

  openai_to_anthropic-text :
      (chunk : Text) (st : StreamState)
      → text_of (openai_to_anthropic j chunk st).0 ≡ delta_content j chunk
  unfolding openai_to_anthropic
  openai_to_anthropic-text chunk st =
      let st' = take_model j chunk st in
      let st1 = (start_message j st').1 in
      let c = delta_content j chunk in
      let finish = j.get chunk (codes "choices.0.finish_reason") in
      let last = finish_message j finish (text_block j c st1).1 in
      text_of-append (start_message j st').0 ((text_block j c st1).0 ++ last.0)
      ∙ rw (start_message-text st') (
          text_of-append (text_block j c st1).0 last.0
          ∙ rw (text_block-text c st1, finish_message-text finish (text_block j c st1).1)
              (append-nil c))

  -- No text is lost, added or reordered: the text deltas that `streamOpenAIToAnthropic` emits carry,
  -- one after another, the content of the chunks.
  pub openai_to_anthropic-text_of :
      (chunks : List Text) (st : StreamState)
      → text_of (run_stream (openai_to_anthropic j) chunks st).0 ≡ content_of j chunks
  unfolding run_stream text_of content_of
  openai_to_anthropic-text_of [] st = refl
  openai_to_anthropic-text_of (chunk ∷ chunks) st =
      let r = openai_to_anthropic j chunk st in
      text_of-append r.0 (run_stream (openai_to_anthropic j) chunks r.1).0
      ∙ rw (openai_to_anthropic-text chunk st, openai_to_anthropic-text_of chunks r.1) refl
