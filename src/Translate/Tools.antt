-- ===== src/Translate/Tools.antt =====
-- The tool calls of an Anthropic stream, as an openai client reads them.
use simple_api.Base.Dict.{lookup}
use simple_api.Base.{
  ℕ, zero, suc, ◌+◌, ◌≡◌, refl, sym, ap, ◌∙◌, Bool, true, false, Option, none, some, List, [], ◌∷◌,
  ◌++◌, append_assoc, arith, if◌then◌else◌, ◌==◌, nat_eq, bool_eq, pair_eq, Text, codes, text_eq,
}
use simple_api.Base.Int64.{Int64}
use simple_api.Json.{Json}
use simple_api.Translate.{ToolMeta, StreamState}
use simple_api.Translate.Stream.{
  OpenaiChunk, run_stream, chunk_index, stop_block, anthropic_to_openai, tool_chunk,
}

abbrev chunk_indices : OpenaiChunk → List ℕ
chunk_indices (tool_chunk model i id name arguments) = i ∷ []
chunk_indices _ = []

-- The `index` fields of the tool calls, in order.
unfoldable pub tool_indices : List OpenaiChunk → List ℕ
tool_indices [] = []
tool_indices (c ∷ cs) = chunk_indices c ++ tool_indices cs

unfoldable pub count_from : ℕ → ℕ → List ℕ
count_from i zero = []
count_from i (suc n) = i ∷ count_from (suc i) n

tool_indices-append :
    (xs ys : List OpenaiChunk) → tool_indices (xs ++ ys) ≡ tool_indices xs ++ tool_indices ys
unfolding tool_indices
tool_indices-append [] ys = refl
tool_indices-append (c ∷ xs) ys =
    ap (λ t. chunk_indices c ++ t) (tool_indices-append xs ys)
    ∙ sym (append_assoc (chunk_indices c) (tool_indices xs) (tool_indices ys))

-- The tool calls are numbered on from where the state stands.
record Numbers (st : StreamState) (r : List OpenaiChunk × StreamState) : Type 0 where
  count : ℕ
  indices : tool_indices r.0 ≡ count_from st.tool_index_seq count
  seq : r.1.tool_index_seq ≡ st.tool_index_seq + count

if-Numbers :
    (st : StreamState) (b : Bool) (x y : List OpenaiChunk × StreamState)
    → Numbers st x
    → Numbers st y
    → Numbers st (if b then x else y)
if-Numbers st true x y p q = p
if-Numbers st false x y p q = q

count_from-append : (i m n : ℕ) → count_from i m ++ count_from (i + m) n ≡ count_from i (m + n)
unfolding count_from
count_from-append i zero n =
    let e : i + 0 ≡ i = omega arith in let k : 0 + n ≡ n = omega arith in rw (e, k) refl
count_from-append i (suc m) n =
    let e : i + suc m ≡ suc i + m = omega arith in
    let k : suc m + n ≡ suc (m + n) = omega arith in
    rw (e, k, count_from) (ap (λ t. i ∷ t) (count_from-append (suc i) m n))

module _ (j : Json) where
  none-Numbers :
      (st : StreamState) (cs : List OpenaiChunk) (st' : StreamState)
      → tool_indices cs ≡ []
      → st'.tool_index_seq ≡ st.tool_index_seq
      → Numbers st (cs, st')
  none-Numbers st cs st' h k = record {
    count = 0;
    indices = h ∙ (unfold count_from in refl);
    seq = omega (arith, k);
  }

  stop_block-Numbers :
      (idx : Int64) (o : Option ToolMeta) (st : StreamState) → Numbers st (stop_block j idx o st)
  unfolding tool_indices count_from
  stop_block-Numbers idx none st = none-Numbers st [] st refl refl
  stop_block-Numbers idx (some meta) st = record { count = 1; indices = refl; seq = refl }

  anthropic_to_openai-Numbers :
      (chunk : Text) (st : StreamState) → Numbers st (anthropic_to_openai j chunk st)
  unfolding anthropic_to_openai tool_indices
  anthropic_to_openai-Numbers chunk st =
      let t = j.string (j.get chunk (codes "type")) in
      let dt = j.string (j.get chunk (codes "delta.type")) in
      let cb = j.get chunk (codes "content_block") in
      if-Numbers st (t == codes "message_start") _ _ (none-Numbers st _ _ refl refl) (
        if-Numbers st (t == codes "content_block_start") _ _
          (if-Numbers st (j.string (j.sub cb (codes "type")) == codes "tool_use") _ _
            (none-Numbers st _ _ refl refl) (none-Numbers st _ _ refl refl))
          (if-Numbers st (t == codes "content_block_delta") _ _
            (if-Numbers st (dt == codes "text_delta") _ _ (none-Numbers st _ _ refl refl) (
              if-Numbers st (dt == codes "input_json_delta") _ _ (none-Numbers st _ _ refl refl)
                (none-Numbers st _ _ refl refl)))
            (if-Numbers st (t == codes "content_block_stop") _ _
              (stop_block-Numbers (chunk_index j chunk) (lookup (chunk_index j chunk) st.tool_meta)
                st)
              (if-Numbers st (t == codes "message_delta") _ _ (none-Numbers st _ _ refl refl) (
                if-Numbers st (t == codes "message_stop") _ _ (none-Numbers st _ _ refl refl)
                  (none-Numbers st _ _ refl refl))))))

  -- The tool calls that `streamAnthropicToOpenAI` emits through a stream are numbered without a gap
  -- and in order: from the index of the stream's state (0 for a new one) on, by one.
  pub anthropic_to_openai-tool_indices :
      (chunks : List Text) (st : StreamState)
      → (n : ℕ) × ((tool_indices (run_stream (anthropic_to_openai j) chunks st).0
            ≡ count_from st.tool_index_seq n)
          × ((run_stream (anthropic_to_openai j) chunks st).1.tool_index_seq
              ≡ st.tool_index_seq + n))
  unfolding run_stream tool_indices count_from
  anthropic_to_openai-tool_indices [] st = (0, (refl, omega arith))
  anthropic_to_openai-tool_indices (chunk ∷ chunks) st =
      let r = anthropic_to_openai j chunk st in
      let one = anthropic_to_openai-Numbers chunk st in
      let (n, (later, seq')) = anthropic_to_openai-tool_indices chunks r.1 in
      let rest = (run_stream (anthropic_to_openai j) chunks r.1).0 in
      (
        one.count + n,
        (
          tool_indices-append r.0 rest
              ∙ rw (one.indices, later, one.seq) (count_from-append st.tool_index_seq one.count n),
          omega (arith, one.seq, seq'),
        ),
      )
