-- ===== src/Provider/Tests.antt =====
-- The headers of one request.
use simple_api.Base.{◌≡◌, refl, some, [], ◌∷◌, nat_eq, bool_eq, pair_eq, codes, text_eq}
use simple_api.Base.Dict.{lookup}
use simple_api.Config.{anthropic}
use simple_api.Provider.{build_url, outbound}
use simple_api.Provider.Headers.{auth_value, lookup-outbound}

-- A provider that sets the key's header itself.
lookup-outbound_example :
    lookup
      (codes "X-Api-Key")
      (outbound
        (codes "u/")
        anthropic
        (codes "k")
        ((codes "x-API-key", codes "other") ∷ [])
        []).header
    ≡ some (codes "k")
unfolding auth_value
lookup-outbound_example =
    lookup-outbound (codes "u/") anthropic (codes "k") ((codes "x-API-key", codes "other") ∷ []) []
      (codes "X-Api-Key")

url_text : build_url (codes "u/") anthropic ≡ codes "u/v1/messages"
unfolding build_url
url_text = refl
