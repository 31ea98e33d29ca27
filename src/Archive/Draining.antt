-- ===== src/Archive/Draining.antt =====
-- What `Close` waits for happens: the goroutine writes all that was queued, and ends.
use simple_api.Base.{
  ℕ, suc, ◌≤◌, ◌≡◌, refl, sym, ◌∙◌, true, List, [], ◌∷◌, ◌++◌, append-nil, append_assoc, arith,
  length,
}
use simple_api.Archive.{Record, Writer, enqueue, close, run_once, has_ended}
use simple_api.Archive.Order.{Event, run, recorded, drained, ended}

-- The rounds of the goroutine among the events.
abbrev pub rounds : List Event → ℕ
rounds [] = 0
rounds (recorded rec ∷ es) = rounds es
rounds (drained ∷ es) = suc (rounds es)
rounds (ended ∷ es) = rounds es

-- A closed writer.
abbrev shut : (taken queue : List Record) (dropped : ℕ) → Writer
shut taken queue dropped = record { queue = queue; closed = true; taken = taken; dropped = dropped }

run_lem :
    (es : List Event) (taken queue : List Record) (dropped : ℕ)
    → length queue ≤ rounds es
    → ((run es (shut taken queue dropped)).taken ≡ taken ++ queue)
      × (has_ended (run es (shut taken queue dropped)) ≡ true)
unfolding enqueue run_once close
run_lem [] taken [] dropped h = (sym (append-nil taken), refl)
run_lem [] taken (rec ∷ queue) dropped h = absurd (omega (arith, h))
run_lem (recorded rec ∷ es) taken queue dropped h = run_lem es taken queue dropped h
run_lem (drained ∷ es) taken [] dropped h = run_lem es taken [] dropped (omega arith)
run_lem (drained ∷ es) taken (rec ∷ queue) dropped h =
    let (all_taken, ended') = run_lem es (taken ++ rec ∷ []) queue dropped (omega (arith, h)) in
    (all_taken ∙ append_assoc taken (rec ∷ []) queue, ended')
run_lem (ended ∷ es) taken queue dropped h = run_lem es taken queue dropped h

-- Once the writer is closed, and whatever calls of `Record` and `Close` come between, as many rounds of
-- the goroutine as records wait are enough: everything queued is taken to be written, in order, nothing
-- else is, and `run` has ended, so that `Close` returns.
pub close-has_ended :
    (es : List Event) (w : Writer)
    → length w.queue ≤ rounds es
    → ((run es (close w)).taken ≡ w.taken ++ w.queue) × (has_ended (run es (close w)) ≡ true)
unfolding close
close-has_ended es w h = run_lem es w.taken w.queue w.dropped h
