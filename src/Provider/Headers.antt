-- ===== src/Provider/Headers.antt =====
-- The headers of an outbound request, whatever the order in which the provider's headers are read.
use simple_api.Base.{
  ◌≡◌, refl, ap, ◌∙◌, inl, inr, Bool, true, false, Option, none, some, List, [], ◌∷◌, ◌++◌,
  if◌then◌else◌, Bool-cases, ◌==◌, nat_eq, bool_eq, pair_eq, Text, codes, text_eq,
}
use simple_api.Base.Dict.{lookup, insert, lookup-insert}
use simple_api.Config.{anthropic}
use simple_api.Provider.{
  canonical, Header, set_header, set_all, auth_header, build_headers, trim_slashes, build_url,
  outbound,
}

-- The value of the last entry with a name, in any case; else the one before.
unfoldable pub last_value : Text → List (Text × Text) → Option Text → Option Text
unfolding canonical
last_value asked [] before = before
last_value asked ((k, v) ∷ kvs) before =
    last_value asked kvs (if canonical k == asked then some v else before)

-- The value that the configured key gives to a header.
unfoldable pub auth_value : (type key asked : Text) → Option Text
unfolding canonical
auth_value type [] asked = none
auth_value type (c ∷ key) asked =
    if type == anthropic
    then if canonical (codes "x-api-key") == asked then some (c ∷ key) else none
    else if canonical (codes "Authorization") == asked
    then some (codes "Bearer " ++ c ∷ key)
    else none

lookup-set_all :
    (kvs : List (Text × Text)) (h : Header) (asked : Text)
    → lookup asked (set_all kvs h) ≡ last_value asked kvs (lookup asked h)
unfolding set_all last_value
lookup-set_all [] h asked = refl
lookup-set_all ((k, v) ∷ kvs) h asked =
    lookup-set_all kvs (insert (canonical k) v h) asked
    ∙ ap (λ b. last_value asked kvs b) (lookup-insert (canonical k) asked v h)

-- The first of two values.
abbrev pub first_of : Option Text → Option Text → Option Text
first_of none b = b
first_of (some a) b = some a

first_of-if :
    (b : Bool) (v : Text) (before : Option Text)
    → (if b then some v else before) ≡ first_of (if b then some v else none) before
first_of-if true v before = refl
first_of-if false v before = refl

lookup-set_header :
    (k v : Text) (h : Header) (asked : Text)
    → lookup asked (set_header k v h)
      ≡ first_of (if canonical k == asked then some v else none) (lookup asked h)
unfolding insert canonical
lookup-set_header k v h asked =
    lookup-insert (canonical k) asked v h ∙ first_of-if (canonical k == asked) v (lookup asked h)

lookup-auth_header :
    (type key : Text) (h : Header) (asked : Text)
    → lookup asked (auth_header type key h) ≡ first_of (auth_value type key asked) (lookup asked h)
unfolding auth_value insert canonical
lookup-auth_header type [] h asked = elim (Bool-cases (type == anthropic)) [
  | inl e ↦ rw e refl
  | inr e ↦ rw e refl
]
lookup-auth_header type (c ∷ key) h asked = elim (Bool-cases (type == anthropic)) [
  | inl e ↦ rw e (lookup-set_header (codes "x-api-key") (c ∷ key) h asked)
  | inr e ↦ rw e (lookup-set_header (codes "Authorization") (codes "Bearer " ++ c ∷ key) h asked)
]

-- A header of the request that `Do` sends: `Accept` and `Content-Type` are the program's own; then the
-- header of the protocol's that carries a key which is not empty is that key's, and every other one is
-- the provider's, of its entries with that name in any case the one that is read last. So no entry of
-- the provider's headers, however it is written, takes the place of the key.
pub lookup-outbound :
    (url type key : Text) (headers : List (Text × Text)) (body asked : Text)
    → lookup asked (outbound url type key headers body).header ≡ (
        if codes "Accept" == asked
        then some (codes "application/json, text/event-stream")
        else if codes "Content-Type" == asked
        then some (codes "application/json")
        else first_of (auth_value type key asked) (last_value asked headers none))
unfolding outbound build_headers insert canonical lookup
lookup-outbound url type key headers body asked =
    lookup-insert (codes "Accept") asked _ _
    ∙ ap
        (λ t.
          if codes "Accept" == asked then some (codes "application/json, text/event-stream") else t)
        (lookup-insert (codes "Content-Type") asked _ _
          ∙ ap (λ t. if codes "Content-Type" == asked then some (codes "application/json") else t)
              (lookup-auth_header type key (set_all headers []) asked
                ∙ ap (λ t. first_of (auth_value type key asked) t)
                    (lookup-set_all headers [] asked)))

trim_slashes-slash : (base : Text) → trim_slashes (base ++ b'/' ∷ []) ≡ trim_slashes base
unfolding trim_slashes
trim_slashes-slash [] = refl
trim_slashes-slash (c ∷ s) = rw (trim_slashes-slash s) refl

-- A slash at the end of the base changes nothing.
build_url-slash : (base type : Text) → build_url (base ++ b'/' ∷ []) type ≡ build_url base type
unfolding build_url
build_url-slash base type = rw (trim_slashes-slash base) refl
