-- ===== src/Pipeline/Routes.antt =====
-- Every client can be served by every provider of a validated config.
use simple_api.Config.Validate.{validate}
use simple_api.Config.Selection.{IsUsable, validate-IsUsable}
use simple_api.Indexes.{resolve_upstream, provider_entry}
use simple_api.Base.{
  ◌≡◌, ◌≢◌, inl, inr, Bool, true, List, [], ◌∷◌, Bool-cases, ◌==◌, eq_of_==, nat_eq, bool_eq,
  pair_eq, All, Text, text_eq,
}
use simple_api.Base.Dict.{lookup, insert}
use simple_api.Config.{anthropic, openai_completion, codex, is_valid_protocol, Provider, Config}
use simple_api.Json.{Json}
use simple_api.Translate.Pairs.{Printer, pairs}
use simple_api.Pipeline.World.{route_to, refused}

-- The three protocols.
data IsProtocol : Text → Type 0 where
  the_anthropic : IsProtocol anthropic
  the_openai : IsProtocol openai_completion
  the_codex : IsProtocol codex

is_valid_protocol-IsProtocol : (p : Text) → is_valid_protocol p ≡ true → IsProtocol p
unfolding is_valid_protocol
is_valid_protocol-IsProtocol p h = elim (Bool-cases (p == anthropic)) [
  | inl a ↦ rw (eq_of_== p anthropic a) the_anthropic
  | inr not_a ↦ elim (Bool-cases (p == openai_completion)) [
    | inl o ↦ rw (eq_of_== p openai_completion o) the_openai
    | inr not_o ↦ elim (Bool-cases (p == codex)) [
      | inl c ↦ rw (eq_of_== p codex c) the_codex
      | inr not_c ↦ let e = rw (not_a, not_o, not_c) at h in cc
    ]
  ]
]

module _ (j : Json) (b : Printer) where
  route_lem :
      {source target : Text}
      → IsProtocol source
      → IsProtocol target
      → route_to (pairs j b) source target ≢ refused
  unfolding route_to pairs lookup insert
  route_lem the_anthropic the_anthropic = λ e. cc
  route_lem the_anthropic the_openai = λ e. cc
  route_lem the_anthropic the_codex = λ e. cc
  route_lem the_openai the_anthropic = λ e. cc
  route_lem the_openai the_openai = λ e. cc
  route_lem the_openai the_codex = λ e. cc
  route_lem the_codex the_anthropic = λ e. cc
  route_lem the_codex the_openai = λ e. cc
  route_lem the_codex the_codex = λ e. cc

  All-served :
      (client : Text) (ps : List Provider)
      → is_valid_protocol client ≡ true
      → All (IsUsable client) ps
      → All
          (λ p.
            route_to (pairs j b) client (resolve_upstream (provider_entry p) client).type ≢ refused)
          ps
  unfolding resolve_upstream
  All-served client [] c h = tt
  All-served client (p ∷ ps) c (now, later) = (
    route_lem (is_valid_protocol-IsProtocol client c) (is_valid_protocol-IsProtocol _ now.known),
    All-served client ps c later,
  )

  -- In a config without validation errors, for a client of any of the three protocols: each provider
  -- either speaks the client's protocol on the endpoint that `ResolveUpstream` gives, or a translation
  -- is registered between the two, so that no candidate is passed over for want of one.
  pub validate-route_to :
      (json_valid : Text → Bool) (cfg : Config) (client : Text)
      → validate json_valid cfg ≡ []
      → is_valid_protocol client ≡ true
      → All
          (λ p.
            route_to (pairs j b) client (resolve_upstream (provider_entry p) client).type ≢ refused)
          cfg.providers
  validate-route_to json_valid cfg client h c =
      All-served client cfg.providers c (validate-IsUsable json_valid cfg client h c)
