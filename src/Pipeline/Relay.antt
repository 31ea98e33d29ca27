-- ===== src/Pipeline/Relay.antt =====
-- What a streamed attempt relays to the client and to the archive.
use simple_api.Base.Int64.{Int64, sle}
use simple_api.Base.{
  ◌≡◌, refl, sym, ap, ◌∙◌, Bool, true, false, Option, none, some, List, [], ◌∷◌, ◌++◌, append-nil,
  append_assoc, arith, Text,
}
use simple_api.Json.{Json}
use simple_api.Translate.{Pair}
use simple_api.Pipeline.Attempt.{
  Ending, Relay, new_relay, data_payload, to_sink, last_line, lost, emit, transform, count_usage,
  pass_line, translate_line, process_line, on_line, on_lines, attempt_stream, streamed,
}
use simple_api.Pipeline.Answer.{is_retryable_status}

unfoldable pub concat : List Text → Text
concat [] = []
concat (t ∷ ts) = t ++ concat ts

concat-append : (xs ys : List Text) → concat (xs ++ ys) ≡ concat xs ++ concat ys
unfolding concat
concat-append [] ys = refl
concat-append (t ∷ xs) ys =
    ap (λ s. t ++ s) (concat-append xs ys) ∙ sym (append_assoc t (concat xs) (concat ys))

-- The bytes of the lines that the loop takes.
abbrev pub taken : List Text → Ending → Text
taken lines ending = concat lines ++ last_line ending

-- All bytes that the upstream has sent when the stream ends.
abbrev pub sent : List Text → Ending → Text
sent lines ending = taken lines ending ++ lost ending

to_sink-to_sink : (o : Option Text) (s t : Text) → to_sink t (to_sink s o) ≡ to_sink (s ++ t) o
to_sink-to_sink none s t = refl
to_sink-to_sink (some o) s t = ap some (append_assoc o s t)

to_sink-nil : (o : Option Text) → to_sink [] o ≡ o
to_sink-nil none = refl
to_sink-nil (some o) = ap some (append-nil o)

module _ (j : Json) (fragment : Text → Text) (rewrite : Bool) (type : Text) where
  emit-sink : (o : Option Text) (r : Relay) → (emit j fragment rewrite type o r).sink ≡ r.sink
  unfolding emit
  emit-sink none r = refl
  emit-sink (some t) r = ground arith

  pass_line-sink :
      (line : Text) (payload : Option Text) (r : Relay)
      → (pass_line j fragment rewrite type line payload r).sink ≡ r.sink
  unfolding pass_line
  pass_line-sink line none r = refl
  pass_line-sink line (some payload) r = ground arith

  transform-sink :
      (pair : Pair) (chunk : Option Text) (r : Relay)
      → (transform j fragment rewrite type pair chunk r).sink ≡ r.sink
  transform-sink pair chunk r = emit-sink (pair.response_stream chunk r.state).0 _

  translate_line-sink :
      (pair : Pair) (payload : Option Text) (r : Relay)
      → (translate_line j fragment rewrite type pair payload r).sink ≡ r.sink
  unfolding translate_line
  translate_line-sink pair none r = refl
  translate_line-sink pair (some payload) r = ground (
    arith,
    transform-sink pair none r,
    transform-sink pair (some payload) (count_usage j fragment rewrite type payload r),
  )

  process_line-sink :
      (pair : Option Pair) (line : Text) (r : Relay)
      → (process_line j fragment rewrite type pair line r).sink ≡ to_sink line r.sink
  unfolding process_line
  process_line-sink none line r =
      pass_line-sink line (data_payload line) (record r { sink = to_sink line r.sink })
  process_line-sink (some pair) line r =
      translate_line-sink pair (data_payload line) (record r { sink = to_sink line r.sink })

  on_line-sink :
      (pair : Option Pair) (line : Text) (r : Relay)
      → (on_line j fragment rewrite type pair line r).sink ≡ to_sink line r.sink
  unfolding on_line
  on_line-sink pair [] r = sym (to_sink-nil r.sink)
  on_line-sink pair (c ∷ line) r = process_line-sink pair (c ∷ line) (record r { committed = true })

  on_lines-sink :
      (pair : Option Pair) (lines : List Text) (r : Relay)
      → (on_lines j fragment rewrite type pair lines r).sink ≡ to_sink (concat lines) r.sink
  unfolding on_lines concat
  on_lines-sink pair [] r = sym (to_sink-nil r.sink)
  on_lines-sink pair (line ∷ lines) r =
      on_lines-sink pair lines (on_line j fragment rewrite type pair line r)
      ∙ rw (on_line-sink pair line r) (to_sink-to_sink r.sink line (concat lines))

  -- A stream whose status is neither retryable nor an error, whether or not the client gets a
  -- translation or rewritten model names: the archive's sink, where there is one, is extended by the
  -- bytes that the upstream sent, in order. At the end of the stream and on a read error none is
  -- missing; on the idle timer and when the client goes away, what is missing at the end is exactly
  -- the bytes that the loop has not taken by then.
  pub attempt_stream-sink :
      (retries : List Int64) (pair : Option Pair) (sink : Option Text) (status : Int64)
      (ct body : Text) (lines : List Text) (ending : Ending)
      → is_retryable_status status retries ≡ false
      → sle 400 status ≡ false
      → to_sink
          (lost ending)
          (attempt_stream j fragment rewrite type retries pair sink
            (streamed status ct body lines ending)).sink
        ≡ to_sink (sent lines ending) sink
  unfolding attempt_stream
  attempt_stream-sink retries pair sink status ct body lines ending a b =
      let r = on_lines j fragment rewrite type pair lines (new_relay sink) in
      let taken_lem =
        on_line-sink pair (last_line ending) r
        ∙ rw (on_lines-sink pair lines (new_relay sink))
            (to_sink-to_sink sink (concat lines) (last_line ending)) in
      rw (a, b)
        (ap (λ o. to_sink (lost ending) o) taken_lem
          ∙ to_sink-to_sink sink (taken lines ending) (lost ending))

-- The client of an upstream that speaks its protocol, with the model names left as they are.
module _ (j : Json) (fragment : Text → Text) (type : Text) where
  pass_line-written :
      (line : Text) (payload : Option Text) (r : Relay)
      → (pass_line j fragment false type line payload r).written ≡ r.written ++ line ∷ []
  unfolding pass_line
  pass_line-written line none r = refl
  pass_line-written line (some payload) r = ground arith

  on_line-written :
      (line : Text) (r : Relay)
      → concat (on_line j fragment false type none line r).written ≡ concat r.written ++ line
  unfolding on_line process_line
  on_line-written [] r = sym (append-nil (concat r.written))
  on_line-written (c ∷ line) r =
      ap concat (pass_line-written (c ∷ line) (data_payload (c ∷ line)) _)
      ∙ concat-append r.written ((c ∷ line) ∷ [])
      ∙ ap (λ t. concat r.written ++ t) (unfold concat in append-nil (c ∷ line))

  on_lines-written :
      (lines : List Text) (r : Relay)
      → concat (on_lines j fragment false type none lines r).written
        ≡ concat r.written ++ concat lines
  unfolding on_lines concat
  on_lines-written [] r = sym (append-nil (concat r.written))
  on_lines-written (line ∷ lines) r =
      on_lines-written lines (on_line j fragment false type none line r)
      ∙ rw (on_line-written line r) (append_assoc (concat r.written) line (concat lines))

  -- Without a translation and with `rewrite_response_model` off, what is written to the client of a
  -- stream whose status is neither retryable nor an error is the bytes that the upstream sent, in
  -- order. At the end of the stream and on a read error none is missing; on the idle timer and when
  -- the client goes away, what is missing at the end is exactly the bytes that the loop has not taken
  -- by then.
  pub attempt_stream-written :
      (retries : List Int64) (sink : Option Text) (status : Int64) (ct body : Text)
      (lines : List Text) (ending : Ending)
      → is_retryable_status status retries ≡ false
      → sle 400 status ≡ false
      → concat
            (attempt_stream j fragment false type retries none sink
              (streamed status ct body lines ending)).written
          ++ lost ending
        ≡ sent lines ending
  unfolding attempt_stream concat
  attempt_stream-written retries sink status ct body lines ending a b =
      let r = on_lines j fragment false type none lines (new_relay sink) in
      rw (a, b)
        (ap (λ t. t ++ lost ending)
          (on_line-written (last_line ending) r
            ∙ ap (λ t. t ++ last_line ending) (on_lines-written lines (new_relay sink))))
