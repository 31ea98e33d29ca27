-- ===== src/Glob.antt =====
-- internal/glob/glob.go: wildcard patterns, in which `*` stands for any run of bytes.
mod Parts
pub mod Correct
mod Tests
use simple_api.Base.{
  ℕ, ◌+◌, Bool, true, false, not, Option, none, some, List, [], ◌∷◌, if◌then◌else◌, ◌==◌, nat_eq,
  bool_eq, pair_eq, length, drop, is_empty, Text, text_eq, has_prefix, has_suffix, index,
  contains_byte, split,
}

abbrev pub star : ℕ
star = 42

-- The loop over the parts between the first and the last star: each part is taken at its
-- leftmost occurrence. `none` is `return false`.
pub middle_parts : List Text → Text → Option Text
middle_parts [] s = some s
middle_parts (p ∷ ps) s = elim (index s p) [
  | none ↦ none
  | some idx ↦ middle_parts ps (drop (idx + length p) s)
]

-- `parts[1 : len(parts)-1]` and `parts[len(parts)-1]`, where `parts` is `first ∷ others`.
pub init : List Text → List Text
init [] = []
init (x ∷ []) = []
init (x ∷ y ∷ r) = x ∷ init (y ∷ r)

pub last_or : Text → List Text → Text
last_or d [] = d
last_or d (x ∷ xs) = last_or x xs

-- The end of the search: what is left behind the middle parts has the last part as a suffix.
pub ends_with : Option Text → Text → Bool
ends_with none last = false
ends_with (some rest) last = has_suffix rest last

pub match_parts : Text → List Text → Text → Bool
unfolding middle_parts init last_or ends_with
match_parts first others s =
    if not (has_prefix s first)
    then false
    else ends_with (middle_parts (init others) (drop (length first) s)) (last_or first others)

-- `Match`.
unfoldable pub glob_match : Text → Text → Bool
unfolding match_parts
glob_match pattern s =
    if is_empty pattern
    then false
    else if pattern == star ∷ []
    then true
    else if not (contains_byte pattern star)
    then pattern == s
    else let (first, others) = split pattern star in match_parts first others s
