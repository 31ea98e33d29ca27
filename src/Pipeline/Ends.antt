-- ===== src/Pipeline/Ends.antt =====
-- What is left of a round of the candidate loop once the upstream has answered: how many replies it
-- writes, and which slots are held behind it.
use simple_api.Translate.{Pair}
use simple_api.Config.{rewrite_model}
use simple_api.Usage.{Counts, no_counts}
use simple_api.Base.{
  ℕ, ◌+◌, ◌≡◌, refl, inl, inr, Bool, true, false, not, ◌||◌, Option, none, some, List, arith,
  if◌then◌else◌, Bool-cases, is_empty, Text,
}
use simple_api.Base.Int64.{Int64}
use simple_api.Json.{Json}
use simple_api.Indexes.{ResolvedModel, Candidate}
use simple_api.ModelRewrite.{rewrite_model_fields}
use simple_api.Pipeline.Attempt.{
  StreamUpstream, StreamResult, attempt_stream, stream_call_failed, streamed,
}
use simple_api.Pipeline.Answer.{is_success, Answer}
use simple_api.Pipeline.World.{World, reply, Request, Outside, Loop, data_reply, stream_reply}
use simple_api.Pipeline.Records.{record_usage, archive_request}
use simple_api.Pipeline.Call.{
  failed_at, succeeded_at, reply_head, after_stream, or_json, after_answer,
}
use simple_api.Pipeline.Leads.{
  Leads, StepLeads, reply-Leads, Leads-refl, Leads-trans, is_none, step-if, Leads-of-eq,
}

pub attempt_stream-head :
    (j : Json) (fragment : Text → Text) (rewrite : Bool) (type : Text) (rcs : List Int64)
    (pair : Option Pair) (sink : Option Text) (u : StreamUpstream)
    → is_none (attempt_stream j fragment rewrite type rcs pair sink u).head
      ≡ (attempt_stream j fragment rewrite type rcs pair sink u).retryable
unfolding attempt_stream
attempt_stream-head j fragment rewrite type rcs pair sink (stream_call_failed message) = refl
attempt_stream-head j fragment rewrite type rcs pair sink (streamed status ct body lines ending) =
    ground arith

module _ (j : Json) (q : Request) (out : Outside) where
  record_usage-Leads :
      (i : ℕ) (rm : ResolvedModel) (alias : Text) (status : Int64) (body : Option Text) (c : Counts)
      (failed : Bool) (error : Text) (w : World)
      → Leads w (record_usage j q out i rm alias status body c failed error w).0 0
  unfolding record_usage
  record_usage-Leads i rm alias status body c failed error w = record {
    counted = λ c. c;
    same = λ p. refl;
    replied = omega arith;
  }

  archive_request-Leads :
      (rm : ResolvedModel) (alias : Text) (c : Counts) (body : Text) (response stream : Option Text)
      (w : World)
      → Leads w (archive_request j q out rm alias c body response stream w) 0
  unfolding archive_request
  archive_request-Leads rm alias c body response stream w =
      elim (Bool-cases (is_empty q.cfg.archive_dir)) [
        | inl off ↦ rw off (Leads-refl w)
        | inr on ↦ rw on (record { counted = λ c. c; same = λ p. refl; replied = omega arith })
      ]

  if-archive-Leads :
      (b : Bool) (rm : ResolvedModel) (alias : Text) (c : Counts) (body : Text)
      (response stream : Option Text) (w : World)
      → Leads w (if b then archive_request j q out rm alias c body response stream w else w) 0
  if-archive-Leads true rm alias c body response stream w =
      archive_request-Leads rm alias c body response stream w
  if-archive-Leads false rm alias c body response stream w = Leads-refl w

  if-succeeded-Leads :
      (b : Bool) (id : Text) (w : World) → Leads w (if b then succeeded_at j q out id w else w) 0
  if-succeeded-Leads true id w = record {
    counted = λ c. c;
    same = λ p. refl;
    replied = omega arith;
  }
  if-succeeded-Leads false id w = Leads-refl w

  failed_at-Leads : (i : ℕ) (id : Text) (w : World) → Leads w (failed_at j q out i id w) 0
  failed_at-Leads i id w = record { counted = λ c. c; same = λ p. refl; replied = omega arith }

  pub after_answer-Leads :
      (i : ℕ) (cand : Candidate) (rm : ResolvedModel) (alias raw_body : Text) (a : Answer)
      (s : Loop)
      → StepLeads s.world (after_answer j q out i cand rm alias raw_body a s)
  unfolding after_answer
  after_answer-Leads i cand rm alias raw_body a s =
      let usage =
        record_usage j q out i rm alias a.status a.raw no_counts a.retryable a.error s.world in
      let used =
        record_usage-Leads i rm alias a.status a.raw no_counts a.retryable a.error s.world in
      let w1 = usage.0 in
      let w2 = if is_success a.status then succeeded_at j q out cand.internal_id w1 else w1 in
      let answer =
        data_reply a.status (or_json j q out a.content_type)
          (if rewrite_model q.cfg.proxy then rewrite_model_fields j a.body alias else a.body) in
      step-if s.world a.retryable _ _
        (λ _. Leads-trans 0 0 used (failed_at-Leads i cand.internal_id w1))
        (λ _. Leads-trans 0 1 used (
          Leads-trans 0 1 (if-succeeded-Leads (is_success a.status) cand.internal_id w1) (
            Leads-trans 1 0 (reply-Leads w2 answer) (
              if-archive-Leads (is_success a.status) rm alias usage.1 raw_body a.raw none
                (reply answer w2)))))

  reply_head-Leads :
      (h : Option (Int64 × Text)) (written : List Text) (w : World)
      → Leads w (reply_head j q out h written w) (if is_none h then 0 else 1)
  reply_head-Leads none written w = Leads-refl w
  reply_head-Leads (some head) written w = reply-Leads w (stream_reply head written)

  pub after_stream-Leads :
      (i : ℕ) (cand : Candidate) (rm : ResolvedModel) (alias raw_body : Text) (r : StreamResult)
      (s : Loop)
      → is_none r.head ≡ r.retryable
      → StepLeads s.world (after_stream j q out i cand rm alias raw_body r s)
  unfolding after_stream
  after_stream-Leads i cand rm alias raw_body r s h =
      let w0 = reply_head j q out r.head r.written s.world in
      let failed = r.retryable || not r.clean_complete in
      let usage = record_usage j q out i rm alias r.status none r.counts failed r.error w0 in
      let w1 = usage.0 in
      let w2 = if r.clean_complete then succeeded_at j q out cand.internal_id w1 else w1 in
      let used =
        Leads-trans (if is_none r.head then 0 else 1) 0 (reply_head-Leads r.head r.written s.world)
          (record_usage-Leads i rm alias r.status none r.counts failed r.error w0) in
      let n = (if is_none r.head then 0 else 1) + 0 in
      step-if s.world r.retryable _ _
        (λ again.
          Leads-trans 0 0 (Leads-of-eq n 0 used (counted again))
            (failed_at-Leads i cand.internal_id w1))
        (λ final. Leads-trans 1 0 (Leads-of-eq n 1 used (counted final)) (
          Leads-trans 0 0 (if-succeeded-Leads r.clean_complete cand.internal_id w1)
            (if-archive-Leads (is_success r.status) rm alias usage.1 raw_body none r.sink w2)))
    where
      counted :
          {b : Bool}
          → r.retryable ≡ b
          → (if is_none r.head then 0 else 1) + 0 ≡ (if b then 0 else 1)
      counted e = rw (h, e) (omega arith)
