-- ===== src/CallLog/Ring.antt =====
-- The ring buffer against the list of everything that was recorded.
use simple_api.Base.{
  ℕ, zero, suc, ◌+◌, ◌-◌, ◌%◌, ◌≤◌, ◌<◌, min, ◌≡◌, refl, ap, ◌∙◌, ◌≢◌, inl, inr, true, not, ◌||◌,
  Option, none, some, option_map, List, [], ◌∷◌, map, arith, ltb, eqb, if◌then◌else◌, ltb→lt,
  Bool-cases, length, get_elem?, set, take, drop, length-replicate, length-set, get_elem?-set_self,
  get_elem?-set_ne, get_elem?-some, drop-at,
}
use simple_api.Base.Int64.{Int64, modulus, sign_bit, slt, positive}
use native.Mathlib.Nat.{mod-lt}
use simple_api.CallLog.{Entry, Recorder, new_recorder, is_enabled, log_entry, recent_from, recent}

-- The slot that the round `i` of `Recent` reads.
abbrev position : ℕ → ℕ → ℕ → ℕ
position h cap i = (h + cap - 1 - i) % cap

-- `hist` is all that was recorded, newest first.
pub record IsRing (r : Recorder) (hist : List Entry) : Type 0 where
  pub size : length r.buf ≡ r.capacity
  pub fits : r.capacity < sign_bit
  pub in_range : (0 < r.capacity) → r.head < r.capacity
  pub counted : r.count ≡ min r.capacity (length hist)
  pub newest :
      (i : ℕ)
      → i < r.count
      → get_elem? r.buf (position r.head r.capacity i) ≡ option_map some (get_elem? hist i)

back_before : (h cap i : ℕ) → i < h → h < cap → (h + cap - 1 - i) % cap ≡ h - 1 - i
back_before h cap i p q =
    let e : h + cap - 1 - i ≡ (h - 1 - i) + cap = omega arith in rw e (grind arith)

back_around : (h cap i : ℕ) → h ≤ i → i < cap → h < cap → (h + cap - 1 - i) % cap ≡ h + cap - 1 - i
back_around h cap i p q r = grind arith

next_head_wraps : (h cap : ℕ) → h + 1 ≡ cap → (h + 1) % cap ≡ 0
next_head_wraps h cap e = grind arith

next_head_stays : (h cap : ℕ) → h + 1 < cap → (h + 1) % cap ≡ h + 1
next_head_stays h cap e = grind arith

position_lem :
    (h cap i : ℕ)
    → h < cap
    → i < cap
    → position h cap i ≡ (if ltb i h then h - 1 - i else h + cap - 1 - i)
position_lem h cap i p q = ground (arith, back_before h cap i, back_around h cap i)

next_head_lem : (h cap : ℕ) → h < cap → (h + 1) % cap ≡ (if eqb (h + 1) cap then 0 else h + 1)
next_head_lem h cap p = ground (arith, next_head_wraps h cap, next_head_stays h cap)

position-zero : (h cap : ℕ) → h < cap → position ((h + 1) % cap) cap 0 ≡ h
position-zero h cap p =
    rw (next_head_lem h cap p)
      (ground (arith, position_lem (if eqb (h + 1) cap then 0 else h + 1) cap 0))

position-suc :
    (h cap j : ℕ) → h < cap → suc j < cap → position ((h + 1) % cap) cap (suc j) ≡ position h cap j
position-suc h cap j p q = rw (next_head_lem h cap p) (
    ground (
      arith,
      position_lem (if eqb (h + 1) cap then 0 else h + 1) cap (suc j),
      position_lem h cap j,
    ))

head-ne-position : (h cap j : ℕ) → h < cap → suc j < cap → h ≢ position h cap j
head-ne-position h cap j p q = ground (arith, position_lem h cap j)

module _ (r : Recorder) (hist : List Entry) (e : Entry) (v : IsRing r hist)
    (on : 0 < r.capacity) where
  log_entry-newest :
      (i : ℕ)
      → i < r.capacity
      → i < suc r.count
      → get_elem? (set r.buf r.head (some e)) (position ((r.head + 1) % r.capacity) r.capacity i)
        ≡ option_map some (get_elem? (e ∷ hist) i)
  log_entry-newest zero below p =
      rw (position-zero r.head r.capacity (v.in_range on))
        (get_elem?-set_self r.buf r.head (some e) (omega (arith, v.in_range on, v.size)))
  log_entry-newest (suc j) below p = rw (position-suc r.head r.capacity j (v.in_range on) below) (
      get_elem?-set_ne r.buf (some e) (head-ne-position r.head r.capacity j (v.in_range on) below)
      ∙ v.newest j (omega arith))

  log_entry-IsRing_on :
      IsRing
        (record {
          buf = set r.buf r.head (some e);
          head = (r.head + 1) % r.capacity;
          count = if ltb r.count r.capacity then r.count + 1 else r.count;
          capacity = r.capacity;
        })
        (e ∷ hist)
  log_entry-IsRing_on = record {
    size = length-set r.buf r.head (some e) ∙ v.size;
    fits = v.fits;
    in_range = λ p. omega (arith, mod-lt);
    counted = ground (arith, v.counted);
    newest = λ i p. log_entry-newest i (ground (arith, v.counted)) (ground arith);
  }

log_entry-IsRing :
    (r : Recorder) (hist : List Entry) (e : Entry)
    → IsRing r hist
    → IsRing (log_entry r e) (e ∷ hist)
unfolding log_entry
log_entry-IsRing r hist e v = elim (Bool-cases (is_enabled r)) [
  | inl on ↦ rw on (log_entry-IsRing_on r hist e v (ltb→lt 0 r.capacity on))
  | inr off ↦ rw off (record {
    size = v.size;
    fits = v.fits;
    in_range = v.in_range;
    counted = ground (arith, v.counted);
    newest = λ i p. ground (arith, v.counted);
  })
]

-- All that was recorded, newest first, into a new recorder.
unfoldable pub log_all : Int64 → List Entry → Recorder
log_all capacity [] = new_recorder capacity
log_all capacity (e ∷ hist) = log_entry (log_all capacity hist) e

new_recorder-IsRing : (capacity : Int64) → capacity < modulus → IsRing (new_recorder capacity) []
unfolding new_recorder
new_recorder-IsRing capacity h = record {
  size = length-replicate _ none;
  fits = ground arith;
  in_range = λ p. p;
  counted = omega arith;
  newest = λ i p. absurd (omega arith);
}

log_all-IsRing :
    (capacity : Int64) (hist : List Entry)
    → capacity < modulus
    → IsRing (log_all capacity hist) hist
unfolding log_all
log_all-IsRing capacity [] h = new_recorder-IsRing capacity h
log_all-IsRing capacity (e ∷ hist) h =
    log_entry-IsRing (log_all capacity hist) hist e (log_all-IsRing capacity hist h)

-- Entries as a run of `Recent` returns them when no read panics.
abbrev pub as_read : List Entry → List (Option (Option Entry))
as_read es = map (λ e. some (some e)) es

recent_from_lem :
    (r : Recorder) (hist : List Entry) (i n : ℕ)
    → IsRing r hist
    → i + n ≤ r.count
    → recent_from r i n ≡ as_read (take n (drop i hist))
unfolding recent_from
recent_from_lem r hist i zero v h = refl
recent_from_lem r hist i (suc n) v h =
    let (e, at) = get_elem?-some hist i (omega (arith, v.counted)) in
    rw (drop-at hist i at)
      (cc (v.newest i (omega arith), at, recent_from_lem r hist (suc i) n v (omega arith)))

-- How many entries `Recent` returns for a limit that is not negative: 0 asks for all of them.
abbrev pub shown : ℕ → ℕ → ℕ
shown limit count = if eqb limit 0 then count else min limit count

asked :
    (limit count : ℕ)
    → limit < sign_bit
    → count < sign_bit
    → (if not (positive limit) || slt count limit then count else limit) ≡ shown limit count
asked limit count h k = ground arith

recent_lem :
    (r : Recorder) (hist : List Entry) (limit : ℕ)
    → IsRing r hist
    → limit < sign_bit
    → recent r limit ≡ as_read (take (shown limit (min r.capacity (length hist))) hist)
unfolding recent
recent_lem r hist limit v h = rw (← v.counted) (
    rw (asked limit r.count h fits) (elim (Bool-cases (eqb r.count 0)) [
      | inl none_yet ↦ ground arith
      | inr some_yet ↦
          let on : ltb 0 r.capacity ≡ true = ground (arith, v.counted) in
          rw (on, some_yet) (recent_from_lem r hist 0 (shown limit r.count) v (ground arith))
    ]))
  where
    fits : r.count < sign_bit
    fits = omega (arith, v.counted, v.fits)

log_all-capacity :
    (capacity : ℕ) (hist : List Entry)
    → capacity < sign_bit
    → (log_all capacity hist).capacity ≡ capacity
unfolding log_all new_recorder log_entry
log_all-capacity capacity [] h = ground arith
log_all-capacity capacity (e ∷ hist) h = ground (arith, log_all-capacity capacity hist h)

-- Whatever was recorded, `Recent` with a limit n that is not negative returns the newest entries,
-- newest first, and no read of the buffer is out of range: all of the last `capacity` entries for
-- n = 0, and else at most n of them.
pub recent-log_all :
    (capacity limit : ℕ) (hist : List Entry)
    → capacity < sign_bit
    → limit < sign_bit
    → recent (log_all capacity hist) limit
      ≡ as_read (take (shown limit (min capacity (length hist))) hist)
recent-log_all capacity limit hist c l =
    recent_lem (log_all capacity hist) hist limit (log_all-IsRing capacity hist (omega arith)) l
    ∙ ap (λ k. as_read (take (shown limit (min k (length hist))) hist))
        (log_all-capacity capacity hist c)
