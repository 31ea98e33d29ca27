-- ===== src/Usage/Totals.antt =====
-- The recorder against the list of the recorded attempts.
use simple_api.Base.{
  ◌%◌, ◌<◌, ◌≡◌, refl, Bool, Option, none, some, List, [], ◌∷◌, arith, if◌then◌else◌, ◌==◌, nat_eq,
  bool_eq, pair_eq, length, text_eq,
}
use simple_api.Base.Dict.{lookup, insert, lookup-insert}
use simple_api.Base.Int64.{Int64, modulus, add64}
use simple_api.Usage.{
  Key, key_beq_iff, key_eq, Counts, Agg, add_attempt, agg_or_new, Recorder, record_attempt,
}

pub record Attempt : Type 0 where
  pub key : Key
  pub counts : Counts
  pub failed : Bool

-- The attempts of a process so far, newest first.
unfoldable pub record_all : List Attempt → Recorder
unfolding record_attempt
record_all [] = []
record_all (a ∷ h) = record_attempt a.key a.counts a.failed (record_all h)

abbrev pub attempts_of : Key → List Attempt → List Attempt
attempts_of k [] = []
attempts_of k (a ∷ h) = if a.key == k then a ∷ attempts_of k h else attempts_of k h

-- The sum of one counter over some attempts, with the wrap-around of `int64`.
abbrev pub sum64 : (Attempt → Int64) → List Attempt → Int64
sum64 f [] = 0
sum64 f (a ∷ h) = add64 (sum64 f h) (f a)

abbrev pub total_of : List Attempt → Agg
total_of h = record {
  requests = sum64 (λ a. 1) h;
  failures = sum64 (λ a. if a.failed then 1 else 0) h;
  tokens = record {
    input = sum64 (λ a. a.counts.input) h;
    output = sum64 (λ a. a.counts.output) h;
    cache_read = sum64 (λ a. a.counts.cache_read) h;
    cache_creation = sum64 (λ a. a.counts.cache_creation) h;
    cached = sum64 (λ a. a.counts.cached) h;
    reasoning = sum64 (λ a. a.counts.reasoning) h;
    total = sum64 (λ a. a.counts.total) h;
  };
}

abbrev pub row_of : List Attempt → Option Agg
row_of [] = none
row_of (a ∷ h) = some (total_of (a ∷ h))

sum64-below : (f : Attempt → Int64) (h : List Attempt) → sum64 f h < modulus
sum64-below f [] = omega arith
sum64-below f (a ∷ h) = omega arith

add_attempt_lem :
    (a : Attempt) (h : List Attempt)
    → add_attempt (agg_or_new (row_of h)) a.counts a.failed ≡ total_of (a ∷ h)
add_attempt_lem a [] = ground arith
add_attempt_lem a (b ∷ h) = ground (arith, sum64-below (λ a. if a.failed then 1 else 0) (b ∷ h))

-- After any sequence of `Record` calls, the row of a key is missing if no attempt had that key, and
-- else holds the sums over exactly the attempts that had it: their number, the failed ones among
-- them, and each of the seven token counts, with the wrap-around of `int64`.
pub lookup-record_all :
    (h : List Attempt) (k : Key) → lookup k (record_all h) ≡ row_of (attempts_of k h)
unfolding record_all
lookup-record_all [] k = unfold lookup in refl
lookup-record_all (a ∷ h) k =
    let agg = agg_or_new (lookup a.key (record_all h)) in
    rw (lookup-insert a.key k (add_attempt agg a.counts a.failed) (record_all h)) (
      ground (
        arith,
        key_beq_iff a.key k,
        lookup-record_all h k,
        lookup-record_all h a.key,
        add_attempt_lem a (attempts_of k h),
      ))

-- Rows of a recorder, and the sum of their request counts.
abbrev pub requests_sum : Recorder → Int64
requests_sum [] = 0
requests_sum (r ∷ rows) = add64 r.1.requests (requests_sum rows)

requests_sum-insert :
    (k : Key) (c : Counts) (failed : Bool) (m : Recorder)
    → requests_sum (insert k (add_attempt (agg_or_new (lookup k m)) c failed) m)
      ≡ add64 (requests_sum m) 1
unfolding insert lookup
requests_sum-insert k c failed [] = omega arith
requests_sum-insert k c failed ((j, a) ∷ m) = ground (arith, requests_sum-insert k c failed m)

-- The rows' request counts add up to the number of `Record` calls, modulo 2 ^ 64.
pub requests_sum-record_all : (h : List Attempt) → requests_sum (record_all h) ≡ length h % modulus
unfolding record_all record_attempt
requests_sum-record_all [] = omega arith
requests_sum-record_all (a ∷ h) =
    omega
      (arith, requests_sum-insert a.key a.counts a.failed (record_all h), requests_sum-record_all h)
