-- ===== src/Pipeline/Call.antt =====
-- internal/pipeline/pipeline.go: the call of an upstream in the candidate loop, and what follows it.
use simple_api.Base.{
  ℕ, Bool, true, not, ◌||◌, Option, none, some, List, [], ◌∷◌, if◌then◌else◌, Text, codes,
}
use simple_api.Base.Int64.{Int64}
use simple_api.Config.{rewrite_model, retry_codes}
use simple_api.Json.{Json}
use simple_api.Usage.{no_counts}
use simple_api.Translate.{Pair}
use simple_api.Indexes.{ResolvedModel, ProviderEntry, Candidate}
use simple_api.ModelRewrite.{rewrite_model_fields, rewrite_sse_fragment}
use simple_api.Limiter
use simple_api.Failover
use simple_api.Pipeline.Attempt.{StreamResult, attempt_stream}
use simple_api.Pipeline.Answer.{is_success, Answer, attempt_non_stream}
use simple_api.Pipeline.World.{
  World, reply, Request, Outside, Loop, Step, data_reply, stream_reply, continue, return,
}
use simple_api.Pipeline.Records.{record_usage, archive_request}

module _ (j : Json) (q : Request) (out : Outside) where
  abbrev pub failed_at : ℕ → Text → World → World
  failed_at i id w = record w {
    failover = Failover.on_failure (q.key.name, id) (out.answered_at i) w.failover;
  }

  abbrev pub succeeded_at : Text → World → World
  succeeded_at id w = record w { failover = Failover.on_success (q.key.name, id) w.failover }

  abbrev pub reply_head : Option (Int64 × Text) → List Text → World → World
  reply_head none written w = w
  reply_head (some head) written w = reply (stream_reply head written) w

  -- The stream branch behind `attemptStream` and the release of the slot.
  unfoldable pub after_stream :
      ℕ → Candidate → ResolvedModel → Text → Text → StreamResult → Loop → Step
  after_stream i cand rm alias raw_body r s =
      let failed = r.retryable || not r.clean_complete in
      let w0 = reply_head r.head r.written s.world in
      let (w1, c) = record_usage j q out i rm alias r.status none r.counts failed r.error w0 in
      if r.retryable
      then continue (record s { sink = r.sink; world = failed_at i cand.internal_id w1 })
      else let w2 = if r.clean_complete then succeeded_at cand.internal_id w1 else w1 in
        return (
          if is_success r.status
          then archive_request j q out rm alias c raw_body none r.sink w2
          else w2)

  abbrev pub or_json : Text → Text
  or_json [] = codes "application/json"
  or_json (c ∷ s) = c ∷ s

  -- The other branch, behind `attemptNonStream` and the release of the slot.
  unfoldable pub after_answer : ℕ → Candidate → ResolvedModel → Text → Text → Answer → Loop → Step
  after_answer i cand rm alias raw_body a s =
      let (w1, c) =
        record_usage j q out i rm alias a.status a.raw no_counts a.retryable a.error s.world in
      if a.retryable
      then continue (record s { world = failed_at i cand.internal_id w1 })
      else let w2 = if is_success a.status then succeeded_at cand.internal_id w1 else w1 in
        let body =
          if rewrite_model q.cfg.proxy then rewrite_model_fields j a.body alias else a.body in
        let w3 = reply (data_reply a.status (or_json a.content_type) body) w2 in
        return (
          if is_success a.status
          then archive_request j q out rm alias c raw_body a.raw none w3
          else w3)

  -- The call and the release that follows it, of the slot at `handle`.
  unfoldable pub call_upstream :
      ℕ
      → Candidate
      → ResolvedModel
      → ProviderEntry
      → Option Pair
      → Bool
      → (alias raw_body body : Text) → ℕ
      → Loop
      → Step
  call_upstream i cand rm pe pair is_stream alias raw_body body handle s =
      let s' = record s {
        world = record s.world { limiter = Limiter.call_release handle s.world.limiter };
      } in
      let codes' = retry_codes q.cfg.proxy in
      let fragment = λ (frag : Text). rewrite_sse_fragment j frag alias in
      if is_stream
      then after_stream i cand rm alias raw_body
          (attempt_stream j fragment (rewrite_model q.cfg.proxy) pe.type codes' pair s.sink
            (out.stream_upstream i pe body))
          s'
      else after_answer i cand rm alias raw_body
          (attempt_non_stream j codes' pair (out.upstream i pe body)) s'

  -- On what `Acquire` returned.
  unfoldable pub with_slot :
      ℕ
      → Candidate
      → ResolvedModel
      → ProviderEntry
      → Option Pair
      → Bool
      → (alias raw_body body : Text) → Limiter.Limiter × Option ℕ
      → Loop
      → Step
  with_slot i cand rm pe pair is_stream alias raw_body body (l, none) s =
      continue (record s { busy = true })
  with_slot i cand rm pe pair is_stream alias raw_body body (l, some handle) s =
      call_upstream i cand rm pe pair is_stream alias raw_body body handle
        (record s { world = record s.world { limiter = l } })
