-- ===== src/Pipeline/Merge.antt =====
-- What the counts of a stream's events add up to.
use simple_api.Base.{
  ◌≡◌, refl, ◌∙◌, inl, inr, true, false, not, Option, none, some, List, [], ◌∷◌, ◌++◌, map, arith,
  if◌then◌else◌, Bool-cases, All, In, Text,
}
use simple_api.Base.Int64.{Int64, slt, positive}
use simple_api.Json.{Json}
use simple_api.Usage.{Counts}
use simple_api.Pipeline.Counts.{
  take_max, merge_counts, usage_node_for_event, parse_usage_node, merge_node, accumulate_usage,
}

-- The events' counts, merged in order.
unfoldable pub merge_all : List Counts → Counts → Counts
unfolding merge_counts
merge_all [] acc = acc
merge_all (c ∷ cs) acc = merge_all cs (merge_counts acc c)

-- The last positive value, and `d` where there is none.
unfoldable pub last_positive : Int64 → List Int64 → Int64
last_positive d [] = d
last_positive d (x ∷ xs) = last_positive (if positive x then x else d) xs

-- Independent of the order of the values: it is one of them or `d`, and none is greater.
pub record IsGreatest (m d : Int64) (xs : List Int64) : Type 0 where
  pub among : In m (d ∷ xs)
  pub bound : All (λ x. slt m x ≡ false) (d ∷ xs)

abbrev pub fold_max : Int64 → List Int64 → Int64
fold_max d [] = d
fold_max d (x ∷ xs) = fold_max (take_max d x) xs

slt_trans : (a b c : Int64) → slt a b ≡ false → slt b c ≡ false → slt a c ≡ false
slt_trans a b c h k = ground arith

slt_irrefl : (a : Int64) → slt a a ≡ false
slt_irrefl a = ground arith

slt_asym : (d x m : Int64) → slt d x ≡ true → slt m x ≡ false → slt m d ≡ false
slt_asym d x m h k = ground arith

among_later : (m d x : Int64) (xs : List Int64) → In m (d ∷ xs) → In m (d ∷ x ∷ xs)
among_later m d x xs (inl here) = inl here
among_later m d x xs (inr later) = inr (inr later)

take_max-IsGreatest :
    (m d x : Int64) (xs : List Int64) → IsGreatest m (take_max d x) xs → IsGreatest m d (x ∷ xs)
take_max-IsGreatest m d x xs g = elim (Bool-cases (slt d x)) [
  | inl less ↦
      let g' : IsGreatest m x xs = rw less at g in
      record { among = inr g'.among; bound = (slt_asym d x m less g'.bound.0, g'.bound) }
  | inr more ↦
      let g' : IsGreatest m d xs = rw more at g in
      record {
        among = among_later m d x xs g'.among;
        bound = (g'.bound.0, (slt_trans m d x g'.bound.0 more, g'.bound.1));
      }
]

fold_max-IsGreatest : (d : Int64) (xs : List Int64) → IsGreatest (fold_max d xs) d xs
fold_max-IsGreatest d [] = record { among = inl refl; bound = (slt_irrefl d, tt) }
fold_max-IsGreatest d (x ∷ xs) =
    take_max-IsGreatest _ d x xs (fold_max-IsGreatest (take_max d x) xs)

-- What the counts of a stream are, in terms of those of its events.
pub record IsMerge (m acc : Counts) (cs : List Counts) : Type 0 where
  pub input : m.input ≡ last_positive acc.input (map (λ c. c.input) cs)
  pub cache_read : m.cache_read ≡ last_positive acc.cache_read (map (λ c. c.cache_read) cs)
  pub cache_creation :
      m.cache_creation ≡ last_positive acc.cache_creation (map (λ c. c.cache_creation) cs)
  pub output : IsGreatest m.output acc.output (map (λ c. c.output) cs)
  pub cached : IsGreatest m.cached acc.cached (map (λ c. c.cached) cs)
  pub reasoning : IsGreatest m.reasoning acc.reasoning (map (λ c. c.reasoning) cs)
  pub total : IsGreatest m.total acc.total (map (λ c. c.total) cs)

merge_all-IsMerge : (cs : List Counts) (acc : Counts) → IsMerge (merge_all cs acc) acc cs
unfolding merge_all last_positive
merge_all-IsMerge [] acc = record {
  input = refl;
  cache_read = refl;
  cache_creation = refl;
  output = fold_max-IsGreatest acc.output [];
  cached = fold_max-IsGreatest acc.cached [];
  reasoning = fold_max-IsGreatest acc.reasoning [];
  total = fold_max-IsGreatest acc.total [];
}
merge_all-IsMerge (c ∷ cs) acc =
    let m = merge_all-IsMerge cs (merge_counts acc c) in
    record {
      input = m.input;
      cache_read = m.cache_read;
      cache_creation = m.cache_creation;
      output = take_max-IsGreatest _ acc.output c.output _ m.output;
      cached = take_max-IsGreatest _ acc.cached c.cached _ m.cached;
      reasoning = take_max-IsGreatest _ acc.reasoning c.reasoning _ m.reasoning;
      total = take_max-IsGreatest _ acc.total c.total _ m.total;
    }

module _ (j : Json) (upstream_type : Text) where
  -- The counts of the events that carry a usage object.
  abbrev node_counts : Option j.Node → List Counts
  node_counts none = []
  node_counts (some node) =
      if not (j.exists node) then [] else parse_usage_node j node upstream_type ∷ []

  abbrev pub event_counts : List Text → List Counts
  event_counts [] = []
  event_counts (payload ∷ payloads) =
      node_counts (usage_node_for_event j payload upstream_type) ++ event_counts payloads

  abbrev pub accumulate_all : List Text → Counts → Counts
  accumulate_all [] acc = acc
  accumulate_all (payload ∷ payloads) acc =
      accumulate_all payloads (accumulate_usage j payload upstream_type acc)

  merge_node-merge_all :
      (o : Option j.Node) (cs : List Counts) (acc : Counts)
      → merge_all cs (merge_node j o upstream_type acc) ≡ merge_all (node_counts o ++ cs) acc
  unfolding merge_all
  merge_node-merge_all none cs acc = refl
  merge_node-merge_all (some node) cs acc = elim (Bool-cases (j.exists node)) [
    | inl there ↦ rw there refl
    | inr missing ↦ rw missing refl
  ]

  accumulate_all-merge_all :
      (payloads : List Text) (acc : Counts)
      → accumulate_all payloads acc ≡ merge_all (event_counts payloads) acc
  unfolding accumulate_usage
  accumulate_all-merge_all [] acc = unfold merge_all in refl
  accumulate_all-merge_all (payload ∷ payloads) acc =
      accumulate_all-merge_all payloads _
      ∙ merge_node-merge_all (usage_node_for_event j payload upstream_type) (event_counts payloads)
          acc

  -- Through a stream's payloads, `accumulateUsage` keeps for input, cache_read and cache_creation the
  -- last positive value among the events that carry a usage object, or the value before where there is
  -- none, and for output, cached, reasoning and total the greatest of theirs and the value before.
  pub accumulate_all-IsMerge :
      (payloads : List Text) (acc : Counts)
      → IsMerge (accumulate_all payloads acc) acc (event_counts payloads)
  accumulate_all-IsMerge payloads acc =
      rw (accumulate_all-merge_all payloads acc) (merge_all-IsMerge (event_counts payloads) acc)
