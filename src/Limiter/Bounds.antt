-- ===== src/Limiter/Bounds.antt =====
-- No provider has more slots in use than its limit.
use simple_api.Base.{
  ℕ, ◌+◌, ◌≤◌, ◌<◌, ◌≡◌, refl, ap, ◌∙◌, Bool, true, false, Option, none, some, List, [], ◌∷◌, ◌++◌,
  arith, nat_eq, bool_eq, pair_eq, length, get_elem?, All, get_elem?-set_self, get_elem?-lt, Text,
  text_beq_iff, text_eq,
}
use simple_api.Base.Dict.{lookup, lookup-insert}
use simple_api.Base.Int64.{Int64, sign_bit, add64, positive}
use simple_api.Limiter.{
  Handle, Limiter, new, in_flight, acquire, call_handle, call_release, no_slot, slot,
}
use simple_api.Limiter.Counting.{
  is_held, held, held-append, held-set, IsCounted, new-IsCounted, release_lem, Call, step, run,
  step-IsCounted, acquire_call, release_call,
}

-- All calls for the provider are under a positive limit of at most `cap`.
abbrev pub UnderCap : Text → ℕ → Call → Type 0
UnderCap p cap (acquire_call q limit) = q ≡ p → (limit ≤ cap)
UnderCap p cap (release_call i) = Unit

step-cap :
    (l : Limiter) (c : Call) (p : Text) (cap : ℕ)
    → IsCounted l
    → cap < sign_bit
    → UnderCap p cap c
    → in_flight l p ≤ cap
    → in_flight (step l c) p ≤ cap
unfolding step acquire in_flight call_release
step-cap l (acquire_call q limit) p cap v fits u h =
    ground (arith, lookup-insert q p (add64 (in_flight l q) 1) l.in_flight, text_beq_iff q p)
step-cap l (release_call i) p cap v fits u h = call_handle-cap (get_elem? l.handles i)
  where
    call_handle-cap : (o : Option Handle) → in_flight (call_handle o i l) p ≤ cap
    call_handle-cap none = h
    call_handle-cap (some no_slot) = h
    call_handle-cap (some (slot q true)) = h
    call_handle-cap (some (slot q false)) =
        unfold call_handle in ground (arith, v.counted q, v.bounded q, release_lem l.in_flight q p)

-- Calling a closure once more changes nothing.
pub call_release-call_release :
    (l : Limiter) (i : ℕ) → call_release i (call_release i l) ≡ call_release i l
unfolding call_release
call_release-call_release l i = twice (get_elem? l.handles i) refl
  where
    twice :
        (o : Option Handle)
        → get_elem? l.handles i ≡ o
        → call_release i (call_release i l) ≡ call_release i l
    twice none e = rw e (rw e)
    twice (some no_slot) e = rw e (rw e)
    twice (some (slot p true)) e = rw e (rw e)
    twice (some (slot p false)) e =
        rw e (rw (get_elem?-set_self l.handles i (slot p true) (get_elem?-lt l.handles i e)))

run-cap_lem :
    (cs : List Call) (l : Limiter) (p : Text) (cap : ℕ)
    → IsCounted l
    → cap < sign_bit
    → All (UnderCap p cap) cs
    → in_flight l p ≤ cap
    → in_flight (run cs l) p ≤ cap
unfolding run
run-cap_lem [] l p cap v fits u h = h
run-cap_lem (c ∷ cs) l p cap v fits (u, us) h =
    run-cap_lem cs (step l c) p cap (step-IsCounted l c v) fits us (step-cap l c p cap v fits u h)

-- While every `Acquire` for a provider is under a limit that is not negative and at most `cap`
-- (no limit at all, 0, included, since it takes no slot), no sequence of calls brings the
-- provider's counter above `cap`.
pub run-cap :
    (cs : List Call) (p : Text) (cap : ℕ)
    → cap < sign_bit
    → All (UnderCap p cap) cs
    → in_flight (run cs new) p ≤ cap
run-cap cs p cap fits u =
    run-cap_lem cs new p cap new-IsCounted fits u (unfold in_flight lookup in omega arith)

get_elem?-last : (hs : List Handle) (h : Handle) → get_elem? (hs ++ h ∷ []) (length hs) ≡ some h
get_elem?-last [] h = refl
get_elem?-last (g ∷ hs) h = get_elem?-last hs h

abbrev given : Bool → Text → Handle
given true p = slot p false
given false p = no_slot

acquire-handle :
    (l : Limiter) (p : Text) (limit : Int64) (l' : Limiter) (h : ℕ)
    → acquire l p limit ≡ (l', some h)
    → (l'.handles ≡ l.handles ++ given (positive limit) p ∷ []) × (h ≡ length l.handles)
unfolding acquire
acquire-handle l p limit l' h e = ground arith

called-held :
    (l : Limiter) (q p : Text) (i : ℕ) (o : Option Handle)
    → get_elem? l.handles i ≡ o
    → (b : Bool) → o ≡ some (given b p)
    → held q (call_release i l).handles + is_held q (given b p) ≡ held q l.handles
unfolding call_release
called-held l q p i none e b g = cc
called-held l q p i (some x) e true g =
    let found : get_elem? l.handles i ≡ some (slot p false) = e ∙ g in
    rw found (held-set q p l.handles i found)
called-held l q p i (some x) e false g =
    let found : get_elem? l.handles i ≡ some no_slot = e ∙ g in rw found (omega arith)

-- The handle that `Acquire` returns, called once, gives back what was taken.
pub acquired-held :
    (l : Limiter) (p q : Text) (limit : Int64) (l' : Limiter) (h : ℕ)
    → acquire l p limit ≡ (l', some h)
    → held q (call_release h l').handles ≡ held q l.handles
acquired-held l p q limit l' h e =
    let (handles, at) = acquire-handle l p limit l' h e in
    let x = given (positive limit) p in
    let found : get_elem? l'.handles h ≡ some x = rw (handles, at) (get_elem?-last l.handles x) in
    omega (
      arith,
      called-held l' q p h (some x) found (positive limit) refl,
      ap (held q) handles,
      held-append q l.handles x,
    )
