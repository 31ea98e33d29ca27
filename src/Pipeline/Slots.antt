-- ===== src/Pipeline/Slots.antt =====
-- `ServeProxy` answers once and gives back every slot that it takes.
use simple_api.Translate.{Pair}
use simple_api.Usage.{key_eq}
use simple_api.Base.{
  ℕ, suc, ◌≡◌, refl, ap, inl, inr, Bool, true, false, not, Option, none, some, List, [], ◌∷◌, arith,
  if◌then◌else◌, Bool-cases, ◌==◌, nat_eq, bool_eq, pair_eq, is_empty, any, Text, codes, text_eq,
}
use simple_api.Json.{Json}
use simple_api.Indexes.{ResolvedModel, ProviderEntry, Candidate}
use simple_api.Limiter
use simple_api.Limiter.Counting.{IsCounted, acquire-IsCounted, call_release-IsCounted}
use simple_api.Limiter.Bounds.{acquired-held}
use simple_api.Failover
use simple_api.Pipeline.World.{
  World, Request, Outside, Loop, Step, Route, continue, return, pass, through, refused,
}
use simple_api.Pipeline.Serve.{
  send, by_route, on_model, unless_skipped, try_candidate, exhausted, and_then, try_all, any_usable,
  serve_model, serve_body, serve_proxy,
}
use simple_api.Pipeline.Call.{call_upstream, with_slot}
use simple_api.Pipeline.Leads.{
  Leads, IsAnswered, StepLeads, reply-Leads, Leads-refl, Leads-trans, Leads-step, step-if,
}
use simple_api.Pipeline.Ends.{attempt_stream-head, after_answer-Leads, after_stream-Leads}

module _ (j : Json) (q : Request) (out : Outside) where
  call_upstream-Leads :
      (i : ℕ) (cand : Candidate) (rm : ResolvedModel) (pe : ProviderEntry) (pair : Option Pair)
      (is_stream : Bool) (alias raw_body body : Text) (l : Limiter.Limiter) (handle : ℕ) (s : Loop)
      → Limiter.acquire s.world.limiter pe.name pe.max_concurrency ≡ (l, some handle)
      → StepLeads s.world (
          call_upstream j q out i cand rm pe pair is_stream alias raw_body body handle
            (record s { world = record s.world { limiter = l } }))
  unfolding call_upstream
  call_upstream-Leads i cand rm pe pair is_stream alias raw_body body l handle s e =
      let called = record s {
        world = record s.world { limiter = Limiter.call_release handle l };
      } in
      let balanced : Leads s.world called.world 0 = record {
        counted = λ c. call_release-IsCounted l handle (acquired-IsCounted c);
        same = λ p. acquired-held s.world.limiter pe.name p pe.max_concurrency l handle e;
        replied = omega arith;
      } in
      step-if s.world is_stream _ _
        (λ _. Leads-step s.world called.world _ balanced (
          after_stream-Leads j q out i cand rm alias raw_body _ called
            (attempt_stream-head j _ _ pe.type _ pair s.sink (out.stream_upstream i pe body))))
        (λ _.
          Leads-step s.world called.world _ balanced
            (after_answer-Leads j q out i cand rm alias raw_body _ called))
    where
      acquired-IsCounted : IsCounted s.world.limiter → IsCounted l
      acquired-IsCounted c =
          rw (ap (λ t. t.0) e) at (acquire-IsCounted s.world.limiter pe.name pe.max_concurrency c)

  with_slot-Leads :
      (i : ℕ) (cand : Candidate) (rm : ResolvedModel) (pe : ProviderEntry) (pair : Option Pair)
      (is_stream : Bool) (alias raw_body body : Text) (s : Loop) (l : Limiter.Limiter)
      (o : Option ℕ)
      → Limiter.acquire s.world.limiter pe.name pe.max_concurrency ≡ (l, o)
      → StepLeads s.world
          (with_slot j q out i cand rm pe pair is_stream alias raw_body body (l, o) s)
  unfolding with_slot
  with_slot-Leads i cand rm pe pair is_stream alias raw_body body s l none e = Leads-refl s.world
  with_slot-Leads i cand rm pe pair is_stream alias raw_body body s l (some handle) e =
      call_upstream-Leads i cand rm pe pair is_stream alias raw_body body l handle s e

  send-Leads :
      (i : ℕ) (cand : Candidate) (rm : ResolvedModel) (pe : ProviderEntry) (pair : Option Pair)
      (is_stream : Bool) (alias raw_body : Text) (body : Option Text) (s : Loop)
      → StepLeads s.world (send j q out i cand rm pe pair is_stream alias raw_body body s)
  unfolding send
  send-Leads i cand rm pe pair is_stream alias raw_body none s = reply-Leads s.world _
  send-Leads i cand rm pe pair is_stream alias raw_body (some body) s =
      with_slot-Leads i cand rm pe pair is_stream alias raw_body _ s _ _ refl

  by_route-Leads :
      (i : ℕ) (cand : Candidate) (rm : ResolvedModel) (pe : ProviderEntry) (route : Route)
      (is_stream : Bool) (alias raw_body : Text) (s : Loop)
      → StepLeads s.world (by_route j q out i cand rm pe route is_stream alias raw_body s)
  unfolding by_route
  by_route-Leads i cand rm pe refused is_stream alias raw_body s = Leads-refl s.world
  by_route-Leads i cand rm pe pass is_stream alias raw_body s =
      send-Leads i cand rm pe none is_stream alias raw_body _ s
  by_route-Leads i cand rm pe (through pair) is_stream alias raw_body s =
      send-Leads i cand rm pe (some pair) is_stream alias raw_body _ s

  on_model-Leads :
      (i : ℕ) (cand : Candidate) (m : Option (ResolvedModel × ProviderEntry)) (is_stream : Bool)
      (alias raw_body : Text) (s : Loop)
      → StepLeads s.world (on_model j q out i cand m is_stream alias raw_body s)
  unfolding on_model
  on_model-Leads i cand none is_stream alias raw_body s = Leads-refl s.world
  on_model-Leads i cand (some (rm, pe)) is_stream alias raw_body s =
      by_route-Leads i cand _ _ _ is_stream alias raw_body s

  unless_skipped-Leads :
      (i : ℕ) (cand : Candidate) (is_stream : Bool) (alias raw_body : Text) (skip : Bool)
      (fo : Failover.Counter) (s : Loop)
      → StepLeads s.world (unless_skipped j q out i cand is_stream alias raw_body (skip, fo) s)
  unfolding unless_skipped
  unless_skipped-Leads i cand is_stream alias raw_body skip fo s =
      let s' = record s { world = record s.world { failover = fo } } in
      let same : Leads s.world s'.world 0 = record {
        counted = λ c. c;
        same = λ p. refl;
        replied = omega arith;
      } in
      step-if s.world skip _ _ (λ _. same)
        (λ _.
          Leads-step s.world s'.world _ same (on_model-Leads i cand _ is_stream alias raw_body s'))

  try_candidate-Leads :
      (i : ℕ) (cand : Candidate) (is_stream : Bool) (alias raw_body : Text) (s : Loop)
      → StepLeads s.world (try_candidate j q out i cand is_stream alias raw_body s)
  unfolding try_candidate
  try_candidate-Leads i cand is_stream alias raw_body s =
      unless_skipped-Leads i cand is_stream alias raw_body _ _ s

  exhausted-Leads : (s : Loop) → Leads s.world (exhausted j q out s) 1
  unfolding exhausted
  exhausted-Leads s = elim (Bool-cases s.busy) [
    | inl busy ↦ rw busy (reply-Leads s.world _)
    | inr idle ↦ rw idle (reply-Leads s.world _)
  ]

  and_then-Leads :
      (w : World) (st : Step) (rest : Loop → World)
      → StepLeads w st
      → ((s : Loop) → Leads s.world (rest s) 1)
      → Leads w (and_then j q out st rest) 1
  and_then-Leads w (continue s) rest f g = Leads-trans 0 1 f (g s)
  and_then-Leads w (return w') rest f g = f

  try_all-Leads :
      (i : ℕ) (cands : List Candidate) (is_stream : Bool) (alias raw_body : Text) (s : Loop)
      → Leads s.world (try_all j q out i cands is_stream alias raw_body s) 1
  unfolding try_all
  try_all-Leads i [] is_stream alias raw_body s = exhausted-Leads s
  try_all-Leads i (cand ∷ cands) is_stream alias raw_body s =
      and_then-Leads s.world _ _ (try_candidate-Leads i cand is_stream alias raw_body s)
        (try_all-Leads (suc i) cands is_stream alias raw_body)

  Leads-if :
      (w : World) (b : Bool) (x y : World)
      → Leads w x 1
      → Leads w y 1
      → Leads w (if b then x else y) 1
  Leads-if w true x y f g = f
  Leads-if w false x y f g = g

  serve_model-Leads :
      (alias raw_body : Text) (cands : List Candidate) (w : World)
      → Leads w (serve_model j q out alias raw_body cands w) 1
  unfolding serve_model
  serve_model-Leads alias raw_body cands w = Leads-if w (is_empty cands) _ _ (reply-Leads w _) (
      Leads-if w (not (any_usable j q out cands)) _ _ (reply-Leads w _)
        (try_all-Leads 0 cands _ alias raw_body _))

  serve_body-Leads : (body : Option Text) (w : World) → Leads w (serve_body j q out body w) 1
  unfolding serve_body
  serve_body-Leads none w = reply-Leads w _
  serve_body-Leads (some raw_body) w =
      Leads-if w (is_empty (j.string (j.get raw_body (codes "model")))) _ _ (reply-Leads w _)
        (serve_model-Leads _ raw_body _ w)

  serve_proxy-Leads : (w : World) → Leads w (serve_proxy j q out w) 1
  unfolding serve_proxy
  serve_proxy-Leads w =
      Leads-if w (not (any (λ p. p == q.source) q.key.allowed_protocols)) _ _ (reply-Leads w _)
        (serve_body-Leads q.body w)

  -- Whatever the JSON libraries, the upstreams and the clock do: on a limiter whose counters count its
  -- slots, `ServeProxy` writes exactly one reply (an error, a body, or one stream), and afterwards
  -- every provider has as many slots held as before, with the counters still counting them.
  pub serve_proxy-IsAnswered :
      (w : World) → IsCounted w.limiter → IsAnswered w (serve_proxy j q out w)
  serve_proxy-IsAnswered w c =
      let l = serve_proxy-Leads w in
      record { counted = l.counted c; same = l.same; replied = l.replied }
