-- ===== src/Limiter/Counting.antt =====
-- The counters count the slots that are held, through every sequence of calls.
use simple_api.Base.{
  ℕ, zero, suc, ◌+◌, ◌-◌, ◌≤◌, ◌<◌, ◌≡◌, refl, ◌↔◌, true, false, Option, none, some, List, [], ◌∷◌,
  ◌++◌, arith, if◌then◌else◌, ◌==◌, nat_eq, bool_eq, pair_eq, get_elem?, set, Text, text_beq_iff,
  text_eq,
}
use simple_api.Base.Dict.{Map, lookup, lookup-insert, lookup-delete}
use simple_api.Base.Int64.{Int64, sign_bit, add64}
use simple_api.Limiter.{
  Handle, Limiter, new, or_zero, in_flight, acquire, release, call_handle, call_release, no_slot,
  slot,
}

-- The slots of a provider whose closure has not run.
abbrev pub is_held : Text → Handle → ℕ
is_held p no_slot = 0
is_held p (slot q true) = 0
is_held p (slot q false) = if q == p then 1 else 0

abbrev pub held : Text → List Handle → ℕ
held p [] = 0
held p (h ∷ hs) = is_held p h + held p hs

pub held-append :
    (p : Text) (hs : List Handle) (h : Handle) → held p (hs ++ h ∷ []) ≡ held p hs + is_held p h
held-append p [] h = omega arith
held-append p (g ∷ hs) h = omega (arith, held-append p hs h)

pub held-set :
    (p q : Text) (hs : List Handle) (i : ℕ)
    → get_elem? hs i ≡ some (slot q false)
    → held p (set hs i (slot q true)) + (if q == p then 1 else 0) ≡ held p hs
held-set p q [] i e = cc
held-set p q (h ∷ hs) zero e = let e' : h ≡ slot q false = cc in rw e' (omega arith)
held-set p q (h ∷ hs) (suc i) e = omega (arith, held-set p q hs i e)

-- Every counter is the number of slots held, which no `int` overflows.
pub record IsCounted (l : Limiter) : Type 0 where
  pub counted : (p : Text) → in_flight l p ≡ held p l.handles
  pub bounded : (p : Text) → held p l.handles < sign_bit

pub new-IsCounted : IsCounted new
unfolding in_flight lookup
new-IsCounted = record { counted = λ p. refl; bounded = λ p. omega arith }

-- One counter of `Acquire`.
acquire-IsCounted_lem :
    (l : Limiter) (p q : Text) (limit : Int64)
    → in_flight l q ≡ held q l.handles
    → in_flight l p ≡ held p l.handles
    → held q l.handles < sign_bit
    → held p l.handles < sign_bit
    → (in_flight (acquire l p limit).0 q ≡ held q (acquire l p limit).0.handles)
      × (held q (acquire l p limit).0.handles < sign_bit)
unfolding acquire in_flight
acquire-IsCounted_lem l p q limit cq cp bq bp = ground (
  arith,
  held-append q l.handles no_slot,
  held-append q l.handles (slot p false),
  lookup-insert p q (add64 (in_flight l p) 1) l.in_flight,
  text_beq_iff p q,
)

pub acquire-IsCounted :
    (l : Limiter) (p : Text) (limit : Int64) → IsCounted l → IsCounted (acquire l p limit).0
acquire-IsCounted l p limit c = record { counted = λ q. (step q).0; bounded = λ q. (step q).1 }
  where
    step :
        (q : Text)
        → (in_flight (acquire l p limit).0 q ≡ held q (acquire l p limit).0.handles)
          × (held q (acquire l p limit).0.handles < sign_bit)
    step q =
        acquire-IsCounted_lem l p q limit (c.counted q) (c.counted p) (c.bounded q) (c.bounded p)

pub release_lem :
    (m : Map Text Int64) (p q : Text)
    → or_zero (lookup p m) < sign_bit
    → or_zero (lookup q (release m p))
      ≡ (if p == q then or_zero (lookup q m) - 1 else or_zero (lookup q m))
unfolding release
release_lem m p q b =
    ground
      (arith, lookup-insert p q (or_zero (lookup p m) - 1) m, lookup-delete p q m, text_beq_iff p q)

call_handle-IsCounted :
    (l : Limiter) (i : ℕ) (o : Option Handle)
    → get_elem? l.handles i ≡ o
    → IsCounted l
    → IsCounted (call_handle o i l)
unfolding call_handle
call_handle-IsCounted l i none e c = c
call_handle-IsCounted l i (some no_slot) e c = c
call_handle-IsCounted l i (some (slot p true)) e c = c
call_handle-IsCounted l i (some (slot p false)) e c = record {
  counted = λ q. (step q).0;
  bounded = λ q. (step q).1;
}
  where
    after : Limiter
    after = call_handle (some (slot p false)) i l

    step :
        (q : Text) → (in_flight after q ≡ held q after.handles) × (held q after.handles < sign_bit)
    step q =
        unfold in_flight in
        ground (
          arith,
          c.counted q,
          c.counted p,
          c.bounded q,
          c.bounded p,
          release_lem l.in_flight p q,
          held-set q p l.handles i e,
        )

pub call_release-IsCounted : (l : Limiter) (i : ℕ) → IsCounted l → IsCounted (call_release i l)
unfolding call_release
call_release-IsCounted l i c = call_handle-IsCounted l i (get_elem? l.handles i) refl c

-- A call on the limiter, by whichever request.
pub data Call : Type 0 where
  acquire_call : Text → Int64 → Call
  release_call : ℕ → Call

unfoldable pub step : Limiter → Call → Limiter
step l (acquire_call p limit) = (acquire l p limit).0
step l (release_call i) = call_release i l

-- The calls of all requests in the order in which they take the lock.
unfoldable pub run : List Call → Limiter → Limiter
unfolding step
run [] l = l
run (c ∷ cs) l = run cs (step l c)

pub step-IsCounted : (l : Limiter) (c : Call) → IsCounted l → IsCounted (step l c)
unfolding step
step-IsCounted l (acquire_call p limit) v = acquire-IsCounted l p limit v
step-IsCounted l (release_call i) v = call_release-IsCounted l i v

run-IsCounted_lem : (cs : List Call) (l : Limiter) → IsCounted l → IsCounted (run cs l)
unfolding run
run-IsCounted_lem [] l v = v
run-IsCounted_lem (c ∷ cs) l v = run-IsCounted_lem cs (step l c) (step-IsCounted l c v)

-- After every sequence of `Acquire` calls and calls of the closures it returned, in any order and
-- with any repetition, the counter of each provider is the number of slots that were given out for
-- it and whose closure has not been called, and it is below 2 ^ 63.
pub run-IsCounted : (cs : List Call) → IsCounted (run cs new)
run-IsCounted cs = run-IsCounted_lem cs new new-IsCounted

-- `Acquire` fails exactly when the limit is positive and the slots of the provider that are held
-- have reached it.
pub acquire-eq-none_iff :
    (l : Limiter) (p : Text) (limit : Int64)
    → IsCounted l
    → limit < sign_bit
    → ((acquire l p limit).1 ≡ none) ↔ ((0 < limit) × (limit ≤ held p l.handles))
unfolding acquire
acquire-eq-none_iff l p limit v h = ground (arith, v.counted p, v.bounded p)
