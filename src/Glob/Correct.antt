-- ===== src/Glob/Correct.antt =====
-- `Match` decides the relation `Matches`.
use simple_api.Base.{
  ℕ, ◌≡◌, refl, sym, ap, ◌∙◌, ◌≢◌, ◌↔◌, inl, inr, Bool, true, false, List, [], ◌∷◌, ◌++◌,
  append-nil, arith, eqb, Bool-cases, ◌==◌, ==-refl, eq_of_==, nat_eq, bool_eq, pair_eq, length,
  drop, Text, text_eq, has_prefix, contains_byte, split, has_prefix-append, has_prefix_sound,
  drop-length-append,
}
use simple_api.Glob.{star, match_parts, glob_match}
use simple_api.Glob.Parts.{
  Matches, InParts, search_run, search_run_sound, search_run_complete, done, byte, run,
}

split-at_star :
    (c : ℕ) (p : Text)
    → eqb c star ≡ true
    → split (c ∷ p) star ≡ ([], (split p star).0 ∷ (split p star).1)
unfolding split
split-at_star c p h = rw h

split-past :
    (c : ℕ) (p : Text)
    → eqb c star ≡ false
    → split (c ∷ p) star ≡ (c ∷ (split p star).0, (split p star).1)
unfolding split
split-past c p h = rw h

split-without_star : (p : Text) → contains_byte p star ≡ false → split p star ≡ (p, [])
unfolding split contains_byte
split-without_star [] h = refl
split-without_star (c ∷ p) h = ground (arith, split-without_star p)

split-with_star :
    (p : Text)
    → contains_byte p star ≡ true
    → (b : Text) × (bs : List Text) × ((split p star).1 ≡ b ∷ bs)
unfolding contains_byte
split-with_star [] h = cc
split-with_star (c ∷ p) h = elim (Bool-cases (eqb c star)) [
  | inl at ↦ ((split p star).0, (split p star).1, rw (split-at_star c p at))
  | inr past ↦ rw (split-past c p past) (split-with_star p (ground arith))
]

InParts-cons :
    (c : ℕ) (a : Text) (bs : List Text) (t : Text) → InParts a bs t → InParts (c ∷ a) bs (c ∷ t)
InParts-cons c a [] t h = ap (λ t. c ∷ t) h
InParts-cons c a (b ∷ bs) t (u, v, e, h) = (u, v, ap (λ t. c ∷ t) e, h)

InParts-uncons :
    (c : ℕ) (a : Text) (bs : List Text) (s : Text)
    → InParts (c ∷ a) bs s
    → (t : Text) × (s ≡ c ∷ t) × InParts a bs t
InParts-uncons c a [] s h = (a, h, refl)
InParts-uncons c a (b ∷ bs) s (u, v, e, h) = (a ++ (u ++ v), e, (u, v, refl, h))

abbrev Splits : Text → Text → Type 0
Splits p s = InParts (split p star).0 (split p star).1 s

Matches-of-Splits : (p s : Text) → Splits p s → Matches p s
Matches-of-Splits [] s h = unfold split in rw h done
Matches-of-Splits (c ∷ p) s h = elim (Bool-cases (eqb c star)) [
  | inl at ↦
      let (u, v, e, rest) = rw (split-at_star c p at) at h in
      run c u v at e (Matches-of-Splits p v rest)
  | inr past ↦
      let (t, e, rest) =
        InParts-uncons c (split p star).0 (split p star).1 s (rw (split-past c p past) at h) in
      rw e (byte c past (Matches-of-Splits p t rest))
]

Splits-of-Matches : {p s : Text} → Matches p s → Splits p s
Splits-of-Matches done = unfold split in refl
Splits-of-Matches (byte {p} {s} c past m) =
    rw (split-past c p past) (InParts-cons c _ _ s (Splits-of-Matches m))
Splits-of-Matches (run {p} c u v at e m) = rw (split-at_star c p at) (u, v, e, Splits-of-Matches m)

match_parts_sound :
    (a b : Text) (bs : List Text) (s : Text)
    → match_parts a (b ∷ bs) s ≡ true
    → InParts a (b ∷ bs) s
unfolding match_parts search_run
match_parts_sound a b bs s h = elim (Bool-cases (has_prefix s a)) [
  | inl starts ↦
      let (u, v, e, rest) = search_run_sound b bs (drop (length a) s) (rw starts at h) in
      (u, v, has_prefix_sound s a starts ∙ ap (λ t. a ++ t) e, rest)
  | inr differs ↦ cc (rw differs at h)
]

match_parts_complete :
    (a b : Text) (bs : List Text) (s : Text)
    → InParts a (b ∷ bs) s
    → match_parts a (b ∷ bs) s ≡ true
unfolding match_parts search_run
match_parts_complete a b bs s (u, v, e, h) = rw e (
    rw (has_prefix-append a (u ++ v))
      (rw (drop-length-append a (u ++ v)) (search_run_complete b bs (u ++ v) (u, v, refl, h))))

lone_star-Matches : (s : Text) → Matches (star ∷ []) s
lone_star-Matches s = run star s [] refl (sym (append-nil s)) done

-- A pattern without a star.
plain_iff : (p s : Text) → contains_byte p star ≡ false → ((p == s) ≡ true) ↔ Matches p s
plain_iff p s h = (
  λ e. Matches-of-Splits p s (rw (split-without_star p h) (sym (eq_of_== p s e))),
  λ m. let e : s ≡ p = rw (split-without_star p h) at (Splits-of-Matches m) in rw e (==-refl p),
)

abbrev starred : Text → Text → Bool
starred p s = match_parts (split p star).0 (split p star).1 s

starred_iff : (p s : Text) → contains_byte p star ≡ true → (starred p s ≡ true) ↔ Matches p s
starred_iff p s h =
    let (b, bs, e) = split-with_star p h in
    (
      λ m. Matches-of-Splits p s (rw e (match_parts_sound (split p star).0 b bs s (rw e at m))),
      λ m. rw e (match_parts_complete (split p star).0 b bs s (rw e at (Splits-of-Matches m))),
    )

glob_match-starred :
    (c : ℕ) (p s : Text)
    → contains_byte (c ∷ p) star ≡ true
    → ((c ∷ p) == star ∷ []) ≡ false
    → glob_match (c ∷ p) s ≡ starred (c ∷ p) s
unfolding glob_match
glob_match-starred c p s h n = rw (n, h)

glob_match-plain :
    (c : ℕ) (p s : Text)
    → contains_byte (c ∷ p) star ≡ false
    → ((c ∷ p) == star ∷ []) ≡ false
    → glob_match (c ∷ p) s ≡ ((c ∷ p) == s)
unfolding glob_match
glob_match-plain c p s h n = rw (n, h)

glob_match-star : (s : Text) → glob_match (star ∷ []) s ≡ true
unfolding glob_match
glob_match-star s = refl

-- For a pattern that is not empty, each way in which the code answers is right.
glob_match_lem : (c : ℕ) (p s : Text) → (glob_match (c ∷ p) s ≡ true) ↔ Matches (c ∷ p) s
glob_match_lem c p s = elim (Bool-cases ((c ∷ p) == star ∷ [])) [
  | inl lone ↦
      let e = eq_of_== (c ∷ p) (star ∷ []) lone in
      rw e (λ _. lone_star-Matches s, λ _. glob_match-star s)
  | inr more ↦ elim (Bool-cases (contains_byte (c ∷ p) star)) [
    | inl has ↦ rw (glob_match-starred c p s has more) (starred_iff (c ∷ p) s has)
    | inr plain ↦ rw (glob_match-plain c p s plain more) (plain_iff (c ∷ p) s plain)
  ]
]

glob_match-nil : (s : Text) → glob_match [] s ≡ false
unfolding glob_match
glob_match-nil s = refl

-- `Match` returns true exactly when the pattern is not empty and the text matches it: each byte but
-- `*` stands for itself, and each `*` for some run of bytes, the empty one included.
pub glob_match_iff : (p s : Text) → (glob_match p s ≡ true) ↔ ((p ≢ []) × Matches p s)
glob_match_iff [] s = (λ h. cc (h, glob_match-nil s), λ (ne, _). absurd (ne refl))
glob_match_iff (c ∷ p) s =
    let (sound, complete) = glob_match_lem c p s in (λ h. (λ e. cc, sound h), λ (_, m). complete m)
