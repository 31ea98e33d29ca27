-- ===== src/Pipeline/Counts.antt =====
-- internal/pipeline/stream.go: token counts out of upstream responses.
use simple_api.Base.{
  not, ◌&&◌, Option, none, some, List, [], ◌∷◌, if◌then◌else◌, ◌==◌, nat_eq, bool_eq, pair_eq, Text,
  codes, text_eq,
}
use simple_api.Base.Int64.{Int64, add64, slt, positive}
use simple_api.Config.{anthropic, openai_completion, codex}
use simple_api.Json.{Json}
use simple_api.Usage.{key_eq, Counts, no_counts}

abbrev pub take_max : Int64 → Int64 → Int64
take_max acc c = if slt acc c then c else acc

abbrev pub take_last : Int64 → Int64 → Int64
take_last acc c = if positive c then c else acc

-- The merge that `accumulateUsage` makes of one event's counts.
unfoldable pub merge_counts : Counts → Counts → Counts
merge_counts acc c = record {
  input = take_last acc.input c.input;
  cache_read = take_last acc.cache_read c.cache_read;
  cache_creation = take_last acc.cache_creation c.cache_creation;
  output = take_max acc.output c.output;
  cached = take_max acc.cached c.cached;
  reasoning = take_max acc.reasoning c.reasoning;
  total = take_max acc.total c.total;
}

-- `finalizeCounts`.
unfoldable pub finalize_counts : Counts → Text → Counts
finalize_counts c upstream_type = if positive c.total then c else record c {
  total =
      if upstream_type == anthropic
      then add64 (add64 (add64 c.input c.output) c.cache_read) c.cache_creation
      else add64 c.input c.output;
}

module _ (j : Json) where
  -- `usageNodeForEvent`. `none` is `ok == false`.
  unfoldable pub usage_node_for_event : Text → Text → Option j.Node
  usage_node_for_event payload upstream_type =
      let t = j.string (j.get payload (codes "type")) in
      if upstream_type == anthropic
      then if t == codes "message_start"
        then some (j.get payload (codes "message.usage"))
        else if t == codes "message_delta"
        then some (j.get payload (codes "usage"))
        else none
      else if upstream_type == openai_completion
      then some (j.get payload (codes "usage"))
      else if upstream_type == codex
      then if not (t == codes "response.completed") && not (t == codes "response.incomplete")
        then none
        else some (j.get payload (codes "response.usage"))
      else none

  -- `usageNodeForBody`.
  unfoldable pub usage_node_for_body : Text → Text → j.Node
  usage_node_for_body body upstream_type =
      if upstream_type == codex && j.exists (j.get body (codes "response.usage"))
      then j.get body (codes "response.usage")
      else j.get body (codes "usage")

  -- `pick`.
  unfoldable pub pick : List j.Node → Int64
  pick [] = 0
  pick (v ∷ vals) = if j.exists v && not (j.int_of v == 0) then j.int_of v else pick vals

  -- The two names of a counter, in the order of preference.
  abbrev pub pick2 : j.Node → Text → Text → Int64
  pick2 u a b = pick (j.sub u a ∷ j.sub u b ∷ [])

  -- `parseUsageNode`.
  unfoldable pub parse_usage_node : j.Node → Text → Counts
  unfolding pick
  parse_usage_node u upstream_type =
      if not (j.exists u)
      then no_counts
      else if upstream_type == anthropic
      then record no_counts {
        input = j.int_of (j.sub u (codes "input_tokens"));
        output = j.int_of (j.sub u (codes "output_tokens"));
        cache_read = j.int_of (j.sub u (codes "cache_read_input_tokens"));
        cache_creation = j.int_of (j.sub u (codes "cache_creation_input_tokens"));
      }
      else if upstream_type == openai_completion
      then record no_counts {
        input = pick2 u (codes "prompt_tokens") (codes "input_tokens");
        output = pick2 u (codes "completion_tokens") (codes "output_tokens");
        cached =
            pick2 u (codes "prompt_tokens_details.cached_tokens")
              (codes "input_tokens_details.cached_tokens");
        reasoning =
            pick2 u (codes "completion_tokens_details.reasoning_tokens")
              (codes "output_tokens_details.reasoning_tokens");
        total = j.int_of (j.sub u (codes "total_tokens"));
      }
      else if upstream_type == codex
      then record no_counts {
        input = pick2 u (codes "input_tokens") (codes "prompt_tokens");
        output = pick2 u (codes "output_tokens") (codes "completion_tokens");
        cached =
            pick2 u (codes "input_tokens_details.cached_tokens")
              (codes "prompt_tokens_details.cached_tokens");
        reasoning =
            pick2 u (codes "output_tokens_details.reasoning_tokens")
              (codes "completion_tokens_details.reasoning_tokens");
        total = j.int_of (j.sub u (codes "total_tokens"));
      }
      else no_counts

  abbrev pub merge_node : Option j.Node → Text → Counts → Counts
  merge_node none upstream_type acc = acc
  merge_node (some node) upstream_type acc =
      if not (j.exists node) then acc else merge_counts acc (parse_usage_node node upstream_type)

  -- `accumulateUsage`.
  unfoldable pub accumulate_usage : Text → Text → Counts → Counts
  unfolding usage_node_for_event parse_usage_node merge_counts
  accumulate_usage payload upstream_type acc =
      merge_node (usage_node_for_event payload upstream_type) upstream_type acc
