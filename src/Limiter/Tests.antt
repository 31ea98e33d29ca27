-- ===== src/Limiter/Tests.antt =====
-- Concrete runs of the limiter.
use simple_api.Base.{
  ◌≤◌, ◌≡◌, refl, none, List, [], ◌∷◌, arith, nat_eq, bool_eq, pair_eq, codes, text_eq,
}
use simple_api.Base.Dict.{lookup, insert}
use simple_api.Limiter.{new, in_flight, acquire}
use simple_api.Limiter.Counting.{
  IsCounted, Call, step, run, run-IsCounted, acquire_call, release_call,
}
use simple_api.Limiter.Bounds.{run-cap}

abbrev calls : List Call
calls =
    acquire_call (codes "a") 2
    ∷ acquire_call (codes "b") 0
    ∷ acquire_call (codes "a") 2
    ∷ acquire_call (codes "a") 2
    ∷ release_call 0
    ∷ release_call 0
    ∷ []

two_refused : (acquire (run (acquire_call (codes "a") 1 ∷ []) new) (codes "a") 1).1 ≡ none
unfolding run step acquire in_flight lookup insert
two_refused = refl

run-IsCounted_example : IsCounted (run calls new)
run-IsCounted_example = run-IsCounted calls

run-cap_example : in_flight (run calls new) (codes "a") ≤ 2
run-cap_example =
    run-cap calls (codes "a") 2 (omega arith)
      (λ _. omega arith, (λ _. omega arith, (λ _. omega arith, (λ _. omega arith, (tt, (tt, tt))))))
