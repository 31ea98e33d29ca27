-- ===== src/Indexes/Routing.antt =====
-- `ResolveCandidates` on the context that `Build` makes of a key, against the key's models as they
-- stand in the config.
use simple_api.Base.Int64.{flip}
use simple_api.Base.Sort.{Ordered, sort, sort-perm, IsOrder, sort-Ordered}
use simple_api.Base.{
  ℕ, suc, ◌≤◌, ◌<◌, ◌≡◌, refl, sym, ◌∙◌, ◌⊎◌, inl, inr, false, Option, none, some, option_map, List,
  [], ◌∷◌, ◌++◌, map, append-nil, append_assoc, arith, if◌then◌else◌, Option-cases, nat_eq, bool_eq,
  pair_eq, is_empty, Text, text_beq_iff, text_eq,
}
use simple_api.Base.Dict.{Map, lookup, lookup-insert}
use simple_api.Config.{get_or, ClientModel, ClientApiKey}
use simple_api.Indexes.{
  ResolvedModel, Candidate, KeyContext, exact_or, resolve_candidates, candidate, add_candidate,
  add_client_models, before, sort_candidates, sort_route, empty_key, sort_key, build_key,
}
use mathlib.Core.List.{Perm}
use simple_api.Indexes.Patterns.{
  keep, keep-append, is_exact, has_pattern, first_pattern, under_pattern, chosen, candidates_of,
  find_route, candidates_or_nil, first_wildcard_lem, find_route-add, find_route-sort, lookup-map,
  nonempty, nonempty-append, get-nonempty, route_of, Holds, no_pattern_before, first_pattern-append,
}

add_candidate-exact :
    (kc : KeyContext) (cs : List Candidate) (c : Candidate) (r : Text)
    → ((r : Text) → lookup r kc.routing ≡ nonempty (keep (is_exact r) cs))
    → lookup r (add_candidate c kc).routing ≡ nonempty (keep (is_exact r) (cs ++ c ∷ []))
unfolding add_candidate
add_candidate-exact kc cs c r h = rw (keep-append (is_exact r) cs (c ∷ [])) (
    ground (
      arith,
      append-nil (keep (is_exact r) cs),
      lookup-insert c.alias_b r (get_or [] (lookup c.alias_b kc.routing) ++ c ∷ []) kc.routing,
      text_beq_iff c.alias_b r,
      h r,
      get-nonempty (keep (is_exact r) cs),
      nonempty-append (keep (is_exact r) cs) c,
    ))

add_candidate-wild :
    (kc : KeyContext) (cs : List Candidate) (c : Candidate) (r : Text)
    → find_route kc.wildcards r ≡ option_map (route_of cs) (first_pattern r cs)
    → find_route (add_candidate c kc).wildcards r
      ≡ option_map (route_of (cs ++ c ∷ [])) (first_pattern r (cs ++ c ∷ []))
unfolding add_candidate
add_candidate-wild kc cs c r h = elim (Option-cases (first_pattern r cs)) [
  | inl nowhere ↦ rw (first_pattern-append r cs (c ∷ [])) (
      ground (
        arith,
        nowhere,
        h,
        find_route-add c.alias_b c kc.wildcards r,
        keep-append (has_pattern c.alias_b) cs (c ∷ []),
        no_pattern_before r c.alias_b cs,
        text_beq_iff c.alias_b c.alias_b,
      ))
  | inr (p, found) ↦ rw (first_pattern-append r cs (c ∷ [])) (
      ground (
        arith,
        found,
        h,
        find_route-add c.alias_b c kc.wildcards r,
        keep-append (has_pattern p) cs (c ∷ []),
        append-nil (keep (has_pattern p) cs),
        text_beq_iff c.alias_b p,
        text_beq_iff p c.alias_b,
      ))
]

add_candidate-Holds :
    (kc : KeyContext) (cs : List Candidate) (c : Candidate)
    → Holds kc cs
    → Holds (add_candidate c kc) (cs ++ c ∷ [])
add_candidate-Holds kc cs c h = record {
  exact = λ r. add_candidate-exact kc cs c r h.exact;
  wild = λ r. add_candidate-wild kc cs c r (h.wild r);
}

add_client_models-missing :
    (models : Map Text ResolvedModel) (order : ℕ) (cm : ClientModel) (cms : List ClientModel)
    (kc : KeyContext)
    → lookup cm.model models ≡ none
    → add_client_models models order (cm ∷ cms) kc ≡ none
unfolding add_client_models
add_client_models-missing models order cm cms kc h = rw (h, add_client_models)

add_client_models-found :
    (models : Map Text ResolvedModel) (order : ℕ) (cm : ClientModel) (cms : List ClientModel)
    (kc : KeyContext) (rm : ResolvedModel)
    → lookup cm.model models ≡ some rm
    → add_client_models models order (cm ∷ cms) kc
      ≡ add_client_models models (suc order) cms (add_candidate (candidate cm rm order) kc)
unfolding add_client_models
add_client_models-found models order cm cms kc rm h = rw (h, add_client_models)

add_client_models-nil :
    (models : Map Text ResolvedModel) (order : ℕ) (kc : KeyContext)
    → add_client_models models order [] kc ≡ some kc
unfolding add_client_models
add_client_models-nil models order kc = refl

add_client_models-Holds :
    (models : Map Text ResolvedModel) (order : ℕ) (cms : List ClientModel) (kc kc' : KeyContext)
    (cs : List Candidate)
    → Holds kc cs
    → add_client_models models order cms kc ≡ some kc'
    → Holds kc' (cs ++ candidates_of models order cms)
add_client_models-Holds models order [] kc kc' cs h e =
    let same : kc ≡ kc' = cc (add_client_models-nil models order kc, e) in
    rw (append-nil cs, ← same) h
add_client_models-Holds models order (cm ∷ cms) kc kc' cs h e =
    elim (Option-cases (lookup cm.model models)) [
      | inl missing ↦ cc (add_client_models-missing models order cm cms kc missing, e)
      | inr (rm, found) ↦
          let c = candidate cm rm order in
          let later = candidates_of models (suc order) cms in
          let h' =
            add_client_models-Holds models (suc order) cms (add_candidate c kc) kc' (cs ++ c ∷ [])
              (add_candidate-Holds kc cs c h)
              (sym (add_client_models-found models order cm cms kc rm found) ∙ e) in
          rw (found, candidates_of) (rw (append_assoc cs (c ∷ []) later) at h')
    ]

empty_key-Holds : (k : ClientApiKey) → Holds (empty_key k) []
unfolding find_route lookup
empty_key-Holds k = record { exact = λ r. refl; wild = λ r. refl }

sort-nil : sort_candidates [] ≡ []
unfolding sort
sort-nil = refl

abbrev routed : KeyContext → Text → List Candidate
routed kc r =
    exact_or (option_map sort_candidates (lookup r kc.routing))
      (candidates_or_nil (option_map sort_route (find_route kc.wildcards r)))

resolve_candidates-sort_key :
    (kc : KeyContext) (r : Text) → resolve_candidates (sort_key kc) r ≡ routed kc r
unfolding resolve_candidates sort_key
resolve_candidates-sort_key kc r = rw (
  lookup-map sort_candidates r kc.routing,
  first_wildcard_lem (map sort_route kc.wildcards) r,
  find_route-sort kc.wildcards r,
)

routed_lem :
    (kc : KeyContext) (cs : List Candidate) (r : Text)
    → Holds kc cs
    → routed kc r ≡ sort_candidates (chosen r cs)
routed_lem kc cs r h =
    rw (h.exact r, h.wild r) (by_cases (keep (is_exact r) cs) (first_pattern r cs))
  where
    by_cases :
        (exact : List Candidate) (p : Option Text)
        → exact_or
            (option_map sort_candidates (nonempty exact))
            (candidates_or_nil (option_map sort_route (option_map (route_of cs) p)))
          ≡ sort_candidates (if is_empty exact then under_pattern p cs else exact)
    by_cases [] none = sym sort-nil
    by_cases [] (some p) = refl
    by_cases (c ∷ exact) p = refl

-- The key's context that `Build` makes routes every request as the config says: to the candidates
-- whose alias is the request, or, where there is none, to those whose alias is the first pattern (in
-- config order) that matches it, sorted by `sortCandidates`.
pub resolve_candidates-build_key :
    (models : Map Text ResolvedModel) (k : ClientApiKey) (kc : KeyContext) (r : Text)
    → build_key models k ≡ some kc
    → resolve_candidates kc r ≡ sort_candidates (chosen r (candidates_of models 0 k.models))
resolve_candidates-build_key models k kc r e =
    loaded (add_client_models models 0 k.models (empty_key k)) refl (unfold build_key in e)
  where
    loaded :
        (o : Option KeyContext)
        → add_client_models models 0 k.models (empty_key k) ≡ o
        → option_map sort_key o ≡ some kc
        → resolve_candidates kc r ≡ sort_candidates (chosen r (candidates_of models 0 k.models))
    loaded none built done = cc
    loaded (some kc') built done =
        let same : sort_key kc' ≡ kc = cc in
        rw (← same) (
          resolve_candidates-sort_key kc' r
          ∙ routed_lem kc' (candidates_of models 0 k.models) r (
              add_client_models-Holds models 0 k.models (empty_key k) kc' [] (empty_key-Holds k)
                built))

-- `sortCandidates` orders by its rule, on patterns that are below 2 ^ 64.
before-IsOrder : IsOrder before
before-IsOrder = record { asym = λ x y h. ground arith; trans = λ x y z h k. ground arith }

-- By the signed value of the priority, a higher one first, and by the position in the config's list
-- where it is equal.
abbrev pub TriedFirst : Candidate → Candidate → Type 0
TriedFirst a b =
    (flip b.priority < flip a.priority)
    ⊎ ((flip a.priority ≡ flip b.priority) × (a.order ≤ b.order))

before-TriedFirst : (a b : Candidate) → before b a ≡ false → TriedFirst a b
before-TriedFirst a b h = ground arith

-- The candidates that a request is routed to are tried by falling priority, and in config order
-- where it is equal; none of the chosen ones is lost or repeated.
pub resolve_candidates-TriedFirst :
    (models : Map Text ResolvedModel) (k : ClientApiKey) (kc : KeyContext) (r : Text)
    → build_key models k ≡ some kc
    → Ordered TriedFirst (resolve_candidates kc r)
      × Perm (resolve_candidates kc r) (chosen r (candidates_of models 0 k.models))
resolve_candidates-TriedFirst models k kc r e =
    let cs = chosen r (candidates_of models 0 k.models) in
    rw (resolve_candidates-build_key models k kc r e)
      (sort-Ordered before TriedFirst cs before-IsOrder before-TriedFirst, sort-perm before cs)
