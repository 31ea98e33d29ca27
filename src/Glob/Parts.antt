-- ===== src/Glob/Parts.antt =====
-- What it means for a text to match a pattern, said with no search; the same over the parts
-- between the stars; and the greedy search over the parts.
use simple_api.Base.{
  ℕ, ◌≡◌, refl, sym, ap, ◌∙◌, inl, inr, Bool, true, false, none, some, List, [], ◌∷◌, ◌++◌,
  append_assoc, eqb, Option-cases, length, drop, Text, index, drop-add, has_suffix-append,
  has_suffix_sound, index_sound, index_complete,
}
use simple_api.Glob.{star, middle_parts, init, last_or, ends_with}

-- A byte other than `*` stands for itself, and `*` for any run of bytes.
pub data Matches : Text → Text → Type 0 where
  done : Matches [] []
  byte : {p s : Text} (c : ℕ) → eqb c star ≡ false → Matches p s → Matches (c ∷ p) (c ∷ s)
  run :
      {p s : Text} (c : ℕ) (u v : Text)
      → eqb c star ≡ true
      → s ≡ u ++ v
      → Matches p v
      → Matches (c ∷ p) s

-- The text is the first part, then a run and the next part, and so on to its end.
abbrev pub InParts : Text → List Text → Text → Type 0
InParts a [] s = s ≡ a
InParts a (b ∷ bs) s = (u : Text) × (v : Text) × (s ≡ a ++ (u ++ v)) × InParts b bs v

-- The same behind a star.
abbrev pub AfterRun : Text → List Text → Text → Type 0
AfterRun b bs s = (u : Text) × (v : Text) × (s ≡ u ++ v) × InParts b bs v

AfterRun-longer :
    (b : Text) (bs : List Text) (x w : Text) → AfterRun b bs w → AfterRun b bs (x ++ w)
AfterRun-longer b bs x w (u, v, e, h) =
    (x ++ u, v, ap (λ t. x ++ t) e ∙ sym (append_assoc x u v), h)

-- The search from a text behind a star.
unfoldable pub search_run : Text → List Text → Text → Bool
unfolding middle_parts init last_or ends_with
search_run b bs s = ends_with (middle_parts (init (b ∷ bs)) s) (last_or b bs)

search_run-found :
    (b b' : Text) (bs : List Text) (s : Text) (i : ℕ)
    → index s b ≡ some i
    → search_run b (b' ∷ bs) s ≡ search_run b' bs (drop (length b) (drop i s))
unfolding search_run
search_run-found b b' bs s i h = rw (h, middle_parts) (rw (drop-add i (length b) s))

search_run-missing :
    (b b' : Text) (bs : List Text) (s : Text) → index s b ≡ none → search_run b (b' ∷ bs) s ≡ false
unfolding search_run
search_run-missing b b' bs s h = rw (h, middle_parts)

pub search_run_sound :
    (b : Text) (bs : List Text) (s : Text) → search_run b bs s ≡ true → AfterRun b bs s
search_run_sound b [] s h =
    let (u, e) = has_suffix_sound s b (unfold search_run in h) in (u, b, e, refl)
search_run_sound b (b' ∷ bs) s h = elim (Option-cases (index s b)) [
  | inl missing ↦ cc (h, search_run-missing b b' bs s missing)
  | inr (i, found) ↦
      let (u, split_at) = index_sound s b i found in
      let (u', v, e, rest) =
        search_run_sound b' bs (drop (length b) (drop i s))
          (sym (search_run-found b b' bs s i found) ∙ h) in
      (u, b ++ drop (length b) (drop i s), split_at, (u', v, ap (λ t. b ++ t) e, rest))
]

pub search_run_complete :
    (b : Text) (bs : List Text) (s : Text) → AfterRun b bs s → search_run b bs s ≡ true
search_run_complete b [] s (u, v, e, h) = rw (e, h) (unfold search_run in has_suffix-append u b)
search_run_complete b (b' ∷ bs) s (u, v, e, (u', v', e', h)) =
    let (i, x, found, left) = index_complete u b (u' ++ v') in
    let at : s ≡ u ++ (b ++ (u' ++ v')) = e ∙ ap (λ t. u ++ t) e' in
    rw at (
      search_run-found b b' bs _ i found
      ∙ ap (search_run b' bs) left
      ∙ search_run_complete b' bs (x ++ (u' ++ v'))
          (AfterRun-longer b' bs x (u' ++ v') (u', v', refl, h)))
