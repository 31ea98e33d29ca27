-- ===== src/Config/Selection.antt =====
-- `UpstreamFor` on the providers of a validated config.
use simple_api.Base.{
  ℕ, suc, ◌≡◌, Bool, true, false, not, List, [], ◌∷◌, ◌++◌, arith, is_empty, All, append-eq-nil,
  Text, codes,
}
use simple_api.Base.Dict.{Map}
use simple_api.Config.{is_valid_protocol, Provider, Config, upstream_for}
use simple_api.Config.Payload.{FieldPath, error_if, field, index_at}
use simple_api.Config.Validate.{
  check_models, check_urls, is_negative, name_errors, provider_errors, add_name, check_providers,
  validate,
}
use simple_api.Config.Sound.{error_if-eq-nil, validate-parts}

-- For a client of the protocol there is an endpoint, with a URL, of a known protocol.
pub record IsUsable (client : Text) (p : Provider) : Type 0 where
  pub has_url : is_empty (upstream_for p.type p.url p.urls client).1 ≡ false
  pub known : is_valid_protocol (upstream_for p.type p.url p.urls client).0 ≡ true

upstream_for_usable :
    (type url : Text) (urls : Map Text Text) (client : Text)
    → is_empty (upstream_for type url urls type).1 ≡ false
    → is_valid_protocol type ≡ true
    → is_valid_protocol client ≡ true
    → (is_empty (upstream_for type url urls client).1 ≡ false)
      × (is_valid_protocol (upstream_for type url urls client).0 ≡ true)
unfolding upstream_for
upstream_for_usable type url urls client u t c = ground arith

-- The errors behind the name's.
provider_errors_sound :
    (client : Text) (base : FieldPath) (p : Provider) (seen : List Text)
    → is_valid_protocol client ≡ true
    → provider_errors base p seen ≡ []
    → IsUsable client p
unfolding provider_errors
provider_errors_sound client base p seen c h =
    let limit =
      error_if (is_negative p.max_concurrency) (base ++ field (codes "max_concurrency") ∷ [])
        (codes "invalid_max_concurrency") in
    let type =
      error_if (not (is_valid_protocol p.type)) (base ++ field (codes "type") ∷ [])
        (codes "invalid_provider_type") in
    let urls = check_urls base p.urls in
    let no_url = is_empty (upstream_for p.type p.url p.urls p.type).1 in
    let url = error_if no_url (base ++ field (codes "url") ∷ []) (codes "provider_url_required") in
    let name = name_errors (base ++ field (codes "name") ∷ []) p.name seen in
    let (url_ok, rest) =
      append-eq-nil url (urls ++ (type ++ limit))
        (append-eq-nil name (url ++ (urls ++ (type ++ limit))) h).1 in
    let (type_ok, _) = append-eq-nil type limit (append-eq-nil urls (type ++ limit) rest).1 in
    let has =
      error_if-eq-nil no_url (base ++ field (codes "url") ∷ []) (codes "provider_url_required")
        url_ok in
    let valid =
      error_if-eq-nil (not (is_valid_protocol p.type)) (base ++ field (codes "type") ∷ [])
        (codes "invalid_provider_type") type_ok in
    let (has_url, known) = upstream_for_usable p.type p.url p.urls client has (ground arith) c in
    record { has_url = has_url; known = known }

check_providers_sound :
    (client : Text) (i : ℕ) (ps : List Provider) (seen ids : List Text)
    → is_valid_protocol client ≡ true
    → (check_providers i ps seen ids).0 ≡ []
    → All (IsUsable client) ps
check_providers_sound client i [] seen ids c h = tt
check_providers_sound client i (p ∷ ps) seen ids c h =
    let base = field (codes "providers") ∷ index_at i ∷ [] in
    let models = check_models base p.name 0 p.models [] ids in
    let later = check_providers (suc i) ps (add_name p.name seen) models.1 in
    let (now, rest) =
      append-eq-nil (provider_errors base p seen) (models.0 ++ later.0)
        (unfold check_providers in h) in
    (
      provider_errors_sound client base p seen c now,
      check_providers_sound client (suc i) ps (add_name p.name seen) models.1 c
          (append-eq-nil models.0 later.0 rest).1,
    )

-- In a config without validation errors, every provider has an upstream endpoint for a client of
-- any of the three protocols: `UpstreamFor` gives a URL that is not empty, and one of the three
-- protocols to speak there.
pub validate-IsUsable :
    (json_valid : Text → Bool) (cfg : Config) (client : Text)
    → validate json_valid cfg ≡ []
    → is_valid_protocol client ≡ true
    → All (IsUsable client) cfg.providers
validate-IsUsable json_valid cfg client h c =
    check_providers_sound client 0 cfg.providers [] [] c (validate-parts json_valid cfg h).0
