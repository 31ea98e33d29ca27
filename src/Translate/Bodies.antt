-- ===== src/Translate/Bodies.antt =====
-- Which of the twelve conversions of pairs.go can give an empty body.
use simple_api.Base.{◌≡◌, refl, Bool, ◌&&◌, [], if◌then◌else◌, all, Text}
use simple_api.Json.{Json}
use simple_api.Translate.Doc.{Doc, marshals, Marshal, bytes_of}
use simple_api.Translate.Norm.{NormRequest}
use simple_api.Translate.Anthropic.{
  parse_anthropic_response, build_anthropic_request, build_anthropic_response,
}
use simple_api.Translate.Openai.{parse_openai_response}
use simple_api.Translate.Openai.Build.{build_openai_request, build_openai_response}
use simple_api.Translate.Codex.{parse_codex_response}
use simple_api.Translate.Codex.Build.{build_codex_request, build_codex_response}
use simple_api.Translate.Pairs.{
  Printer, openai_to_anthropic_response, anthropic_to_openai_response, codex_to_anthropic_response,
  anthropic_to_codex_response, codex_to_openai_response, openai_to_codex_response,
}
use simple_api.Translate.Marshals.{takes_input, takes_schema, takes_numbers, takes_message}
use simple_api.Translate.Marshals.Anthropic.{
  build_anthropic_response-marshals, build_anthropic_request-marshals,
}
use simple_api.Translate.Marshals.Openai.{
  build_openai_request-marshals, build_openai_response-marshals,
}
use simple_api.Translate.Marshals.Codex.{
  build_codex_request-marshals, build_codex_response-marshals,
}

bytes_of_lem :
    (m : Marshal) (d : Doc) (b : Bool)
    → marshals m.takes d ≡ b
    → bytes_of m d ≡ (if b then m.text d else [])
unfolding bytes_of
bytes_of_lem m d b e = rw e refl

module _ (j : Json) (p : Printer) where
  -- The conversions of a response for an Anthropic client.
  to_anthropic_response-bytes_of :
      (b : Text)
      → (openai_to_anthropic_response j p b ≡ (
          if all (takes_input p.marshal.takes) (parse_openai_response j b).content
          then p.marshal.text (build_anthropic_response (parse_openai_response j b))
          else []))
        × (codex_to_anthropic_response j p b ≡ (
            if all (takes_input p.marshal.takes) (parse_codex_response j b).content
            then p.marshal.text (build_anthropic_response (parse_codex_response j b))
            else []))
  unfolding openai_to_anthropic_response codex_to_anthropic_response
  to_anthropic_response-bytes_of b = (
    bytes_of_lem p.marshal _ _
        (build_anthropic_response-marshals p.marshal.takes (parse_openai_response j b)),
    bytes_of_lem p.marshal _ _
        (build_anthropic_response-marshals p.marshal.takes (parse_codex_response j b)),
  )

  -- The conversions of a response for the other two protocols.
  to_other_response-bytes_of :
      (b : Text)
      → ((anthropic_to_openai_response j p b
            ≡ p.marshal.text (build_openai_response j (parse_anthropic_response j b)))
          × (codex_to_openai_response j p b
              ≡ p.marshal.text (build_openai_response j (parse_codex_response j b))))
        × ((anthropic_to_codex_response j p b
              ≡ p.marshal.text (build_codex_response j (parse_anthropic_response j b)))
            × (openai_to_codex_response j p b
                ≡ p.marshal.text (build_codex_response j (parse_openai_response j b))))
  unfolding anthropic_to_openai_response codex_to_openai_response anthropic_to_codex_response
      openai_to_codex_response
  to_other_response-bytes_of b = (
    (
      bytes_of_lem p.marshal _ _
          (build_openai_response-marshals p.marshal.takes j (parse_anthropic_response j b)),
      bytes_of_lem p.marshal _ _
          (build_openai_response-marshals p.marshal.takes j (parse_codex_response j b)),
    ),
    (
      bytes_of_lem p.marshal _ _
          (build_codex_response-marshals p.marshal.takes j (parse_anthropic_response j b)),
      bytes_of_lem p.marshal _ _
          (build_codex_response-marshals p.marshal.takes j (parse_openai_response j b)),
    ),
  )

  -- The body of a response for an Anthropic client, made of an upstream body of the chat completions
  -- or of the Responses protocol, is the text of the message that the builder makes exactly if
  -- `json.Marshal` takes the arguments of every tool call (blank ones stand for an empty object);
  -- otherwise the conversion gives an empty body, and no error. The four conversions for a client of the
  -- other two protocols give the text of what the builder makes, whatever the upstream's body is.
  pub responses-bytes_of :
      (b : Text)
      → (((openai_to_anthropic_response j p b ≡ (
              if all (takes_input p.marshal.takes) (parse_openai_response j b).content
              then p.marshal.text (build_anthropic_response (parse_openai_response j b))
              else []))
            × (codex_to_anthropic_response j p b ≡ (
                if all (takes_input p.marshal.takes) (parse_codex_response j b).content
                then p.marshal.text (build_anthropic_response (parse_codex_response j b))
                else [])))
          × (((anthropic_to_openai_response j p b
                  ≡ p.marshal.text (build_openai_response j (parse_anthropic_response j b)))
                × (codex_to_openai_response j p b
                    ≡ p.marshal.text (build_openai_response j (parse_codex_response j b))))
              × ((anthropic_to_codex_response j p b
                    ≡ p.marshal.text (build_codex_response j (parse_anthropic_response j b)))
                  × (openai_to_codex_response j p b
                      ≡ p.marshal.text (build_codex_response j (parse_openai_response j b))))))
  responses-bytes_of b = (to_anthropic_response-bytes_of b, to_other_response-bytes_of b)

-- When `json.Marshal` prints the three requests made of one neutral request: the numbers are finite and
-- the tools' schemas are taken, and for the Messages protocol also the arguments of the tool calls in
-- the system's content and in the messages.
pub requests-marshals :
    (takes : Text → Bool) (j : Json) (nr : NormRequest)
    → (marshals takes (build_openai_request j nr)
        ≡ (takes_numbers nr && all (takes_schema takes) nr.tools))
      × ((marshals takes (build_codex_request j nr)
            ≡ (takes_numbers nr && all (takes_schema takes) nr.tools))
          × (marshals takes (build_anthropic_request nr) ≡ (
              takes_numbers nr
              && (all (takes_input takes) nr.system
                  && (all (takes_message takes) nr.messages
                      && all (takes_schema takes) nr.tools)))))
requests-marshals takes j nr = (
  build_openai_request-marshals takes j nr,
  (build_codex_request-marshals takes j nr, build_anthropic_request-marshals takes nr),
)
