-- ===== src/Failover/Tests.antt =====
-- Concrete histories.
use simple_api.Base.{
  ◌≡◌, refl, true, List, [], ◌∷◌, arith, if◌then◌else◌, nat_eq, bool_eq, pair_eq, codes, text_eq,
}
use simple_api.Base.Dict.{lookup, insert, delete}
use simple_api.Failover.{CounterKey, on_failure, on_success, should_skip}
use simple_api.Failover.History.{
  Outcome, replay, streak, last_failure, verdict, should_skip-replay, failed, succeeded,
}

abbrev key : CounterKey
key = (codes "k", codes "p/m")

abbrev two_failures : List Outcome
two_failures = failed key 5000 ∷ failed key 1000 ∷ succeeded key ∷ failed key 10 ∷ []

skipped : (should_skip key 2 300 9000 (replay two_failures)).0 ≡ true
unfolding should_skip replay on_failure on_success lookup insert delete
skipped = refl

should_skip-replay_example : should_skip key 2 300 9000 (replay two_failures) ≡ (
  (verdict (last_failure key two_failures) (streak key two_failures) 2 300 9000).0,
  if (verdict (last_failure key two_failures) (streak key two_failures) 2 300 9000).1
      then delete key (replay two_failures)
      else replay two_failures,
)
should_skip-replay_example =
    should_skip-replay two_failures key 2 300 9000 (omega arith) (omega arith) (omega arith)
      (omega arith)
