-- ===== src/Failover/History.antt =====
-- The counter against the history of the calls on it.
use simple_api.Base.{
  ℕ, suc, ◌-◌, ◌*◌, ◌%◌, ◌<◌, ◌≡◌, refl, ◌↔◌, Bool, true, false, ◌&&◌, Option, none, some, List, [],
  ◌∷◌, arith, ltb, leb, if◌then◌else◌, ◌==◌, nat_eq, bool_eq, pair_beq_iff, pair_eq, text_eq,
}
use simple_api.Base.Dict.{lookup, delete, lookup-insert, lookup-delete}
use simple_api.Base.Int64.{modulus, sign_bit, add64}
use simple_api.Failover.{
  CounterKey, Entry, Counter, or_fresh, on_failure, on_success, second, should_skip_entry,
  should_skip,
}

-- A finished attempt of some candidate.
pub data Outcome : Type 0 where
  failed : CounterKey → ℕ → Outcome
  succeeded : CounterKey → Outcome

-- The outcomes of a process so far, newest first.
unfoldable pub replay : List Outcome → Counter
unfolding on_failure on_success
replay [] = []
replay (failed k t ∷ h) = on_failure k t (replay h)
replay (succeeded k ∷ h) = on_success k (replay h)

-- The failures of one key since its last success.
abbrev pub streak : CounterKey → List Outcome → ℕ
streak k [] = 0
streak k (failed j t ∷ h) = if j == k then suc (streak k h) else streak k h
streak k (succeeded j ∷ h) = if j == k then 0 else streak k h

-- When the key failed last, if that was after its last success.
abbrev pub last_failure : CounterKey → List Outcome → Option ℕ
last_failure k [] = none
last_failure k (failed j t ∷ h) = if j == k then some t else last_failure k h
last_failure k (succeeded j ∷ h) = if j == k then none else last_failure k h

abbrev expected : Option ℕ → ℕ → Option Entry
expected none n = none
expected (some t) n = some (record { consec = n % modulus; last_fail = t })

streak-zero : (k : CounterKey) (h : List Outcome) → last_failure k h ≡ none → streak k h ≡ 0
streak-zero k [] e = refl
streak-zero k (failed j t ∷ h) e = ground (arith, streak-zero k h)
streak-zero k (succeeded j ∷ h) e = ground (arith, streak-zero k h)

CounterKey-eq_iff : (j k : CounterKey) → ((j == k) ≡ true) ↔ (j ≡ k)
CounterKey-eq_iff = pair_beq_iff

lookup-replay :
    (k : CounterKey) (h : List Outcome)
    → lookup k (replay h) ≡ expected (last_failure k h) (streak k h)
unfolding replay on_failure on_success
lookup-replay k [] = unfold lookup in refl
lookup-replay k (failed j t ∷ h) = ground (
  arith,
  lookup-insert j k
      (record { consec = add64 (or_fresh (lookup j (replay h))).consec 1; last_fail = t })
      (replay h),
  CounterKey-eq_iff j k,
  lookup-replay k h,
  streak-zero k h,
)
lookup-replay k (succeeded j ∷ h) =
    ground (arith, lookup-delete j k (replay h), CounterKey-eq_iff j k, lookup-replay k h)

-- What the caller is promised: whether to skip, and whether the key's failures are forgotten.
abbrev pub verdict : Option ℕ → (fails max_fail reset_sec now : ℕ) → Bool × Bool
verdict none fails max_fail reset_sec now = (false, false)
verdict (some t) fails max_fail reset_sec now =
    if ltb 0 reset_sec && ltb (reset_sec * second) (now - t)
    then (false, true)
    else (leb max_fail fails && ltb 0 fails, false)

should_skip_entry_lem :
    (o : Option ℕ) (k : CounterKey) (n max_fail reset_sec now : ℕ) (m : Counter)
    → n < sign_bit
    → max_fail < sign_bit
    → reset_sec * second < sign_bit
    → now < sign_bit
    → should_skip_entry (expected o n) k max_fail reset_sec now m ≡ (
      (verdict o n max_fail reset_sec now).0,
      if (verdict o n max_fail reset_sec now).1 then delete k m else m,
    )
unfolding should_skip_entry
should_skip_entry_lem none k n max_fail reset_sec now m a b c d = refl
should_skip_entry_lem (some t) k n max_fail reset_sec now m a b c d = ground arith

-- After any history of outcomes, with fewer than 2 ^ 63 failures in a row, and for settings and a
-- clock whose nanoseconds fit an `int64`: if the key has failed since its last success, the last
-- time at t, and a positive reset interval is shorter than the time since t, `ShouldSkip` answers
-- false and clears the key; if it has failed and no such interval has passed, it answers whether
-- the failures since the last success have reached the limit and changes nothing; if it has not
-- failed, it answers false and changes nothing. What other keys did has no influence.
pub should_skip-replay :
    (h : List Outcome) (k : CounterKey) (max_fail reset_sec now : ℕ)
    → streak k h < sign_bit
    → max_fail < sign_bit
    → reset_sec * second < sign_bit
    → now < sign_bit
    → should_skip k max_fail reset_sec now (replay h) ≡ (
      (verdict (last_failure k h) (streak k h) max_fail reset_sec now).0,
      if (verdict (last_failure k h) (streak k h) max_fail reset_sec now).1
          then delete k (replay h)
          else replay h,
    )
unfolding should_skip
should_skip-replay h k max_fail reset_sec now a b c d = rw (lookup-replay k h) (
    should_skip_entry_lem (last_failure k h) k (streak k h) max_fail reset_sec now (replay h) a b c
      d)
