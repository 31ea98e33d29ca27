-- ===== src/Failover.antt =====
-- internal/failover/failover.go: consecutive failures for each (API key, internal model id).
pub mod History
mod Tests
use simple_api.Base.{
  ℕ, ◌-◌, min, Bool, false, ◌&&◌, Option, none, some, ltb, if◌then◌else◌, nat_eq, bool_eq, pair_eq,
  Text, text_eq,
}
use simple_api.Base.Dict.{Map, lookup, insert, delete}
use simple_api.Base.Int64.{Int64, modulus, sign_bit, add64, mul64, slt, sle, positive}

-- `counterKey`: the API key and the model id.
abbrev pub CounterKey : Type 0
CounterKey = Text × Text

-- Times are nanoseconds of the clock.
pub record Entry : Type 0 where
  pub consec : Int64
  pub last_fail : ℕ

abbrev pub Counter : Type 0
Counter = Map CounterKey Entry

abbrev pub or_fresh : Option Entry → Entry
or_fresh none = record { consec = 0; last_fail = 0 }
or_fresh (some e) = e

-- `OnFailure`, at the clock's time `now`.
unfoldable pub on_failure : CounterKey → ℕ → Counter → Counter
on_failure k now m =
    let e = or_fresh (lookup k m) in
    insert k (record { consec = add64 e.consec 1; last_fail = now }) m

-- `OnSuccess`.
unfoldable pub on_success : CounterKey → Counter → Counter
on_success k m = delete k m

-- `t.Sub(u)` saturates at the ends of `time.Duration`.
abbrev pub sub_time : ℕ → ℕ → Int64
sub_time t u = if ltb t u then modulus - min (u - t) sign_bit else min (t - u) (sign_bit - 1)

abbrev pub second : Int64
second = 1000000000

-- The entry is older than `reset_sec`, where that is positive.
unfoldable pub is_stale : Entry → Int64 → ℕ → Bool
is_stale e reset_sec now =
    positive reset_sec && slt (mul64 reset_sec second) (sub_time now e.last_fail)

abbrev pub at_least_one : Int64 → Int64
at_least_one n = if slt n 1 then 1 else n

-- `ShouldSkip` on the entry that it finds.
unfoldable pub should_skip_entry :
    Option Entry → CounterKey → Int64 → Int64 → ℕ → Counter → Bool × Counter
unfolding is_stale
should_skip_entry none k max_fail reset_sec now m = (false, m)
should_skip_entry (some e) k max_fail reset_sec now m =
    if is_stale e reset_sec now
    then (false, delete k m)
    else (sle (at_least_one max_fail) e.consec, m)

unfoldable pub should_skip : CounterKey → Int64 → Int64 → ℕ → Counter → Bool × Counter
unfolding should_skip_entry
should_skip k max_fail reset_sec now m = should_skip_entry (lookup k m) k max_fail reset_sec now m
