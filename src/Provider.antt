-- ===== src/Provider.antt =====
-- internal/provider: the request that Do sends upstream, of client.go and headers.go. The call itself is
-- an argument of the pipeline.
pub mod Headers
mod Tests
use simple_api.Base.{
  ℕ, ◌+◌, ◌-◌, Bool, true, false, ◌&&◌, ◌||◌, List, [], ◌∷◌, ◌++◌, leb, eqb, if◌then◌else◌, ◌==◌,
  nat_eq, bool_eq, pair_eq, is_empty, any, all, Text, codes, text_eq,
}
use simple_api.Base.Dict.{Map, insert}
use simple_api.Config.{anthropic, openai_completion, codex}

abbrev is_lower : ℕ → Bool
is_lower c = leb b'a' c && leb c b'z'

abbrev is_upper : ℕ → Bool
is_upper c = leb b'A' c && leb c b'Z'

-- The bytes of a header's name.
abbrev is_token_byte : ℕ → Bool
is_token_byte c =
    is_lower c
    || (is_upper c || (leb b'0' c && leb c b'9' || any (λ t. eqb t c) (codes "!#$%&'*+-.^_`|~")))

abbrev to_case : Bool → ℕ → ℕ
to_case true c = if is_lower c then c - 32 else c
to_case false c = if is_upper c then c + 32 else c

pub capitalize : Bool → Text → Text
capitalize upper [] = []
capitalize upper (c ∷ s) = to_case upper c ∷ capitalize (eqb c b'-') s

-- `http.CanonicalHeaderKey`.
unfoldable pub canonical : Text → Text
unfolding capitalize
canonical k = if all is_token_byte k then capitalize true k else k

-- `http.Header`, of which only `Set` is used: one value for each key.
abbrev pub Header : Type 0
Header = Map Text Text

abbrev pub set_header : Text → Text → Header → Header
unfolding insert canonical
set_header k v h = insert (canonical k) v h

unfoldable pub set_all : List (Text × Text) → Header → Header
unfolding insert canonical
set_all [] h = h
set_all ((k, v) ∷ kvs) h = set_all kvs (set_header k v h)

abbrev pub auth_header : Text → Text → Header → Header
unfolding insert canonical
auth_header type key h =
    if type == anthropic
    then if key == [] then h else set_header (codes "x-api-key") key h
    else if key == []
    then h
    else set_header (codes "Authorization") (codes "Bearer " ++ key) h

-- `BuildHeaders`, on the provider's headers in the order in which the map is read.
unfoldable pub build_headers : Text → Text → List (Text × Text) → Header
unfolding insert canonical set_all
build_headers type key headers = auth_header type key (set_all headers [])

-- `strings.TrimRight(base, "/")`.
unfoldable pub trim_slashes : Text → Text
trim_slashes [] = []
trim_slashes (c ∷ s) =
    let rest = trim_slashes s in if is_empty rest && eqb c b'/' then [] else c ∷ rest

-- `BuildURL`.
unfoldable pub build_url : Text → Text → Text
unfolding trim_slashes
build_url base type =
    let b = trim_slashes base in
    if type == anthropic
    then b ++ codes "/v1/messages"
    else if type == openai_completion
    then b ++ codes "/chat/completions"
    else if type == codex
    then b ++ codes "/responses"
    else b

pub record Outbound : Type 0 where
  pub url : Text
  pub header : Header
  pub body : Text

-- What `Do` hands to the HTTP client, of an entry's URL, type, key and headers.
unfoldable pub outbound : (url type key : Text) → List (Text × Text) → Text → Outbound
unfolding insert canonical build_headers build_url
outbound url type key headers body = record {
  url = build_url url type;
  header = set_header (codes "Accept") (codes "application/json, text/event-stream") (
      set_header (codes "Content-Type") (codes "application/json")
        (build_headers type key headers));
  body = body;
}
