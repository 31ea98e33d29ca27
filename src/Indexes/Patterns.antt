-- ===== src/Indexes/Patterns.antt =====
-- The candidates that a request chooses, by exact alias or by the first pattern that matches.
use simple_api.Base.{
  ℕ, suc, ◌≡◌, refl, inl, inr, Bool, true, not, ◌&&◌, Option, none, some, option_map, List, [], ◌∷◌,
  ◌++◌, map, arith, if◌then◌else◌, Option-cases, ◌==◌, nat_eq, bool_eq, pair_eq, is_empty, Text,
  text_beq_iff, text_eq, contains_byte,
}
use simple_api.Base.Dict.{Map, lookup}
use simple_api.Config.{get_or, ClientModel}
use simple_api.Glob.{star, glob_match}
use simple_api.Indexes.{
  ResolvedModel, Candidate, WildcardRoute, KeyContext, first_wildcard, add_wildcard_candidate,
  candidate, sort_route,
}

abbrev pub keep : (Candidate → Bool) → List Candidate → List Candidate
keep p [] = []
keep p (c ∷ cs) = if p c then c ∷ keep p cs else keep p cs

pub keep-append :
    (p : Candidate → Bool) (cs ds : List Candidate) → keep p (cs ++ ds) ≡ keep p cs ++ keep p ds
keep-append p [] ds = refl
keep-append p (c ∷ cs) ds = ground (arith, keep-append p cs ds)

abbrev pub has_star : Candidate → Bool
has_star c = contains_byte c.alias_b star

abbrev pub is_exact : Text → Candidate → Bool
is_exact r c = not (has_star c) && c.alias_b == r

abbrev pub has_pattern : Text → Candidate → Bool
has_pattern p c = has_star c && c.alias_b == p

-- The pattern of the first candidate whose alias has a star and matches the request.
abbrev pub first_pattern : Text → List Candidate → Option Text
first_pattern r [] = none
first_pattern r (c ∷ cs) =
    if has_star c && glob_match c.alias_b r then some c.alias_b else first_pattern r cs

abbrev pub under_pattern : Option Text → List Candidate → List Candidate
under_pattern none cs = []
under_pattern (some p) cs = keep (has_pattern p) cs

-- What a request is routed to: the candidates of that very alias, and where there is none, those of
-- the first pattern that matches.
abbrev pub chosen : Text → List Candidate → List Candidate
chosen r cs =
    if is_empty (keep (is_exact r) cs)
    then under_pattern (first_pattern r cs) cs
    else keep (is_exact r) cs

-- The candidates of a key in config order, all of whose models are known.
abbrev pub candidates_of : Map Text ResolvedModel → ℕ → List ClientModel → List Candidate
candidates_of models order [] = []
candidates_of models order (cm ∷ cms) = elim (lookup cm.model models) [
  | none ↦ []
  | some rm ↦ candidate cm rm order ∷ candidates_of models (suc order) cms
]

unfoldable pub find_route : List WildcardRoute → Text → Option WildcardRoute
find_route [] r = none
find_route (w ∷ ws) r = if glob_match w.pattern r then some w else find_route ws r

abbrev pub candidates_or_nil : Option WildcardRoute → List Candidate
candidates_or_nil none = []
candidates_or_nil (some w) = w.candidates

pub first_wildcard_lem :
    (ws : List WildcardRoute) (r : Text) → first_wildcard ws r ≡ candidates_or_nil (find_route ws r)
unfolding first_wildcard find_route
first_wildcard_lem [] r = refl
first_wildcard_lem (w ∷ ws) r = ground (arith, first_wildcard_lem ws r)

abbrev with_candidate : Text → Candidate → Text → Option WildcardRoute → Option WildcardRoute
with_candidate p c r none =
    if glob_match p r then some (record { pattern = p; candidates = c ∷ [] }) else none
with_candidate p c r (some w) =
    some (if w.pattern == p then record w { candidates = w.candidates ++ c ∷ [] } else w)

find_route-matches :
    (ws : List WildcardRoute) (r : Text) (x : WildcardRoute)
    → find_route ws r ≡ some x
    → glob_match x.pattern r ≡ true
unfolding find_route
find_route-matches [] r x h = cc
find_route-matches (w ∷ ws) r x h = ground (arith, find_route-matches ws r x)

pub find_route-add :
    (p : Text) (c : Candidate) (ws : List WildcardRoute) (r : Text)
    → find_route (add_wildcard_candidate p c ws) r ≡ with_candidate p c r (find_route ws r)
unfolding find_route add_wildcard_candidate
find_route-add p c [] r = refl
find_route-add p c (w ∷ ws) r = elim (Option-cases (find_route ws r)) [
  | inl nowhere ↦ ground (arith, text_beq_iff w.pattern p, find_route-add p c ws r)
  | inr (x, found) ↦ ground (
    arith,
    text_beq_iff w.pattern p,
    text_beq_iff x.pattern p,
    find_route-matches ws r x found,
    find_route-add p c ws r,
  )
]

pub find_route-sort :
    (ws : List WildcardRoute) (r : Text)
    → find_route (map sort_route ws) r ≡ option_map sort_route (find_route ws r)
unfolding find_route
find_route-sort [] r = refl
find_route-sort (w ∷ ws) r = ground (arith, find_route-sort ws r)

pub lookup-map :
    (f : List Candidate → List Candidate) (k : Text) (m : Map Text (List Candidate))
    → lookup k (map (λ e. (e.0, f e.1)) m) ≡ option_map f (lookup k m)
unfolding lookup
lookup-map f k [] = refl
lookup-map f k ((j, v) ∷ m) = ground (arith, lookup-map f k m)

abbrev pub nonempty : List Candidate → Option (List Candidate)
nonempty [] = none
nonempty (c ∷ cs) = some (c ∷ cs)

pub nonempty-append :
    (cs : List Candidate) (c : Candidate) → some (cs ++ c ∷ []) ≡ nonempty (cs ++ c ∷ [])
nonempty-append [] c = refl
nonempty-append (x ∷ cs) c = refl

pub get-nonempty : (cs : List Candidate) → get_or [] (nonempty cs) ≡ cs
get-nonempty [] = refl
get-nonempty (c ∷ cs) = refl

abbrev pub route_of : List Candidate → Text → WildcardRoute
route_of cs p = record { pattern = p; candidates = keep (has_pattern p) cs }

-- What the loop has stored after the candidates `cs`.
pub record Holds (kc : KeyContext) (cs : List Candidate) : Type 0 where
  pub exact : (r : Text) → lookup r kc.routing ≡ nonempty (keep (is_exact r) cs)
  pub wild : (r : Text) → find_route kc.wildcards r ≡ option_map (route_of cs) (first_pattern r cs)

-- Before the first matching pattern there is no candidate of a pattern that matches.
pub no_pattern_before :
    (r p : Text) (cs : List Candidate)
    → glob_match p r ≡ true
    → first_pattern r cs ≡ none
    → keep (has_pattern p) cs ≡ []
no_pattern_before r p [] g h = refl
no_pattern_before r p (c ∷ cs) g h =
    ground (arith, text_beq_iff c.alias_b p, no_pattern_before r p cs)

abbrev or_else : Option Text → Option Text → Option Text
or_else (some p) q = some p
or_else none q = q

pub first_pattern-append :
    (r : Text) (cs ds : List Candidate)
    → first_pattern r (cs ++ ds) ≡ or_else (first_pattern r cs) (first_pattern r ds)
first_pattern-append r [] ds = refl
first_pattern-append r (c ∷ cs) ds = ground (arith, first_pattern-append r cs ds)
