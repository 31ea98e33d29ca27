-- ===== src/Pipeline/Serve.antt =====
-- internal/pipeline/pipeline.go: `ServeProxy`, for one request that no other one interleaves with.
use simple_api.Base.{
  ℕ, suc, Bool, true, false, not, Option, none, some, List, [], ◌∷◌, if◌then◌else◌, ◌==◌, nat_eq,
  bool_eq, pair_eq, is_empty, any, Text, codes, text_eq,
}
use simple_api.Base.Dict.{lookup}
use simple_api.Config.{max_failures, failure_reset, str}
use simple_api.Json.{Json}
use simple_api.Usage.{key_eq}
use simple_api.Translate.{Pair}
use simple_api.Indexes.{
  ResolvedModel, ProviderEntry, resolve_upstream, Candidate, resolve_candidates,
}
use simple_api.Payload.{MatchContext, apply}
use simple_api.Limiter
use simple_api.Failover
use simple_api.Pipeline.World.{
  World, reply, Request, Outside, Loop, Step, Route, route_to, error_reply, continue, return, pass,
  through, refused,
}
use simple_api.Pipeline.Call.{with_slot}

module _ (j : Json) (q : Request) (out : Outside) where
  abbrev pub match_context : ResolvedModel → MatchContext
  match_context rm = record {
    internal_id = rm.internal_id;
    alias_a = rm.alias_a;
    upstream_model = rm.upstream_model;
    protocol = rm.provider_type;
    from_protocol = q.source;
    header = q.header;
  }

  -- Steps (11) and (12), on the translated body; none is an error of the translation.
  unfoldable pub send :
      ℕ
      → Candidate
      → ResolvedModel
      → ProviderEntry
      → Option Pair
      → Bool
      → (alias raw_body : Text) → Option Text
      → Loop
      → Step
  send i cand rm pe pair is_stream alias raw_body none s =
      return (reply (error_reply 400 (codes "translation_not_supported")) s.world)
  send i cand rm pe pair is_stream alias raw_body (some body) s =
      with_slot j q out i cand rm pe pair is_stream alias raw_body
        (apply j q.cfg.payload (match_context rm) body)
        (Limiter.acquire s.world.limiter pe.name pe.max_concurrency) s

  abbrev pub or_nil : Option Text → Text
  or_nil none = []
  or_nil (some body) = body

  -- Steps (8) to (10): the outbound model, and the translation.
  unfoldable pub by_route :
      ℕ
      → Candidate
      → ResolvedModel
      → ProviderEntry
      → Route
      → Bool
      → (alias raw_body : Text) → Loop
      → Step
  by_route i cand rm pe refused is_stream alias raw_body s = continue s
  by_route i cand rm pe pass is_stream alias raw_body s =
      send i cand rm pe none is_stream alias raw_body
        (some (or_nil (j.set_value raw_body (codes "model") (str rm.upstream_model)))) s
  by_route i cand rm pe (through pair) is_stream alias raw_body s =
      send i cand rm pe (some pair) is_stream alias raw_body
        (pair.request (or_nil (j.set_value raw_body (codes "model") (str rm.upstream_model)))) s

  abbrev pub find_model : Text → Option (ResolvedModel × ProviderEntry)
  find_model id = elim (lookup id q.idx.models) [
    | none ↦ none
    | some rm ↦ elim (lookup rm.provider_name q.idx.providers) [
      | none ↦ none
      | some pe ↦ some (rm, pe)
    ]
  ]

  unfoldable pub on_model :
      ℕ
      → Candidate
      → Option (ResolvedModel × ProviderEntry)
      → Bool
      → (alias raw_body : Text) → Loop
      → Step
  on_model i cand none is_stream alias raw_body s = continue s
  on_model i cand (some (rm, pe)) is_stream alias raw_body s =
      let pe' = resolve_upstream pe q.source in
      let rm' = record rm { provider_type = pe'.type } in
      by_route i cand rm' pe' (route_to q.pairs q.source pe'.type) is_stream alias raw_body s

  -- On what `ShouldSkip` returned.
  unfoldable pub unless_skipped :
      ℕ → Candidate → Bool → (alias raw_body : Text) → Bool × Failover.Counter → Loop → Step
  unless_skipped i cand is_stream alias raw_body (skip, fo) s =
      let s' = record s { world = record s.world { failover = fo } } in
      if skip
      then continue s'
      else on_model i cand (find_model cand.internal_id) is_stream alias raw_body s'

  -- One round of the candidate loop.
  unfoldable pub try_candidate : ℕ → Candidate → Bool → (alias raw_body : Text) → Loop → Step
  try_candidate i cand is_stream alias raw_body s =
      unless_skipped i cand is_stream alias raw_body
        (Failover.should_skip (q.key.name, cand.internal_id) (max_failures q.cfg.proxy)
          (failure_reset q.cfg.proxy) (out.now i) s.world.failover)
        s

  -- The end of the loop.
  unfoldable pub exhausted : Loop → World
  exhausted s =
      if s.busy
      then reply (error_reply 529 (codes "server_busy")) s.world
      else reply (error_reply 502 (codes "no_available_upstream")) s.world

  abbrev pub and_then : Step → (Loop → World) → World
  and_then (continue s) rest = rest s
  and_then (return w) rest = w

  -- The candidate loop, from the position `i` on.
  unfoldable pub try_all : ℕ → List Candidate → Bool → (alias raw_body : Text) → Loop → World
  try_all i [] is_stream alias raw_body s = exhausted s
  try_all i (cand ∷ cands) is_stream alias raw_body s =
      and_then (try_candidate i cand is_stream alias raw_body s)
        (try_all (suc i) cands is_stream alias raw_body)

  abbrev pub is_pass : Route → Bool
  is_pass refused = false
  is_pass _ = true

  abbrev pub usable_model : Option (ResolvedModel × ProviderEntry) → Bool
  usable_model none = false
  usable_model (some (rm, pe)) =
      is_pass (route_to q.pairs q.source (resolve_upstream pe q.source).type)

  -- The loop that sets `anyUsable`.
  unfoldable pub any_usable : List Candidate → Bool
  unfolding route_to
  any_usable cands = any (λ c. usable_model (find_model c.internal_id)) cands

  abbrev pub new_sink : Option Text
  new_sink = if is_empty q.cfg.archive_dir then none else some []

  unfoldable pub serve_model : Text → Text → List Candidate → World → World
  serve_model alias raw_body cands w =
      if is_empty cands
      then reply (error_reply 404 (codes "model_not_found")) w
      else if not (any_usable cands)
      then reply (error_reply 501 (codes "translation_not_supported")) w
      else try_all 0 cands (j.bool_of (j.get raw_body (codes "stream"))) alias raw_body
          (record { busy = false; sink = new_sink; world = w })

  unfoldable pub serve_body : Option Text → World → World
  serve_body none w = reply (error_reply 400 (codes "invalid_request")) w
  serve_body (some raw_body) w =
      let alias = j.string (j.get raw_body (codes "model")) in
      if is_empty alias
      then reply (error_reply 400 (codes "invalid_request")) w
      else serve_model alias raw_body (resolve_candidates q.key alias) w

  -- `ServeProxy`.
  unfoldable pub serve_proxy : World → World
  serve_proxy w =
      if not (any (λ p. p == q.source) q.key.allowed_protocols)
      then reply (error_reply 403 (codes "protocol_not_allowed")) w
      else serve_body q.body w
