-- ===== src/Archive/Order.antt =====
-- What becomes of the records that are handed to the writer.
use simple_api.Base.{
  ℕ, suc, ◌+◌, ◌≤◌, ◌<◌, ◌≡◌, refl, sym, ap, ◌∙◌, inl, inr, Bool, true, false, List, [], ◌∷◌, ◌++◌,
  append-nil, append_assoc, arith, ltb, ltb→lt, Bool-cases, length, length-append,
}
use simple_api.Archive.{
  Record, queue_size, Writer, new_writer, enqueue, close, take_first, run_once,
}

-- The calls on a writer, with each round of its goroutine.
pub data Event : Type 0 where
  recorded : Record → Event
  drained : Event
  ended : Event

abbrev pub step : Event → Writer → Writer
step (recorded rec) w = enqueue rec w
step drained w = run_once w
step ended w = close w

abbrev pub run : List Event → Writer → Writer
run [] w = w
run (e ∷ es) w = run es (step e w)

-- The records of the calls before the first `Close`.
abbrev pub offered : List Event → List Record
offered [] = []
offered (recorded rec ∷ es) = rec ∷ offered es
offered (drained ∷ es) = offered es
offered (ended ∷ es) = []

-- `xs` is `ys` with `n` items left out.
pub data IsPart : List Record → List Record → ℕ → Type 0 where
  done : IsPart [] [] 0
  kept :
      (rec : Record) {xs ys : List Record} {n : ℕ} → IsPart xs ys n → IsPart (rec ∷ xs) (rec ∷ ys) n
  left_out :
      (rec : Record) {xs ys : List Record} {n : ℕ} → IsPart xs ys n → IsPart xs (rec ∷ ys) (suc n)

-- How `w'` follows `w` when the records `recs` have been offered to it.
record Follows (w w' : Writer) (recs : List Record) : Type 0 where
  accepted : List Record
  lost : ℕ
  order : w'.taken ++ w'.queue ≡ (w.taken ++ w.queue) ++ accepted
  part : IsPart accepted recs lost
  counted : w'.dropped ≡ w.dropped + lost
  bounded : (length w.queue ≤ queue_size) → length w'.queue ≤ queue_size

abbrev offered_to : Bool → List Event → List Record
offered_to true es = []
offered_to false es = offered es

run_once-same : (w : Writer) → (run_once w).taken ++ (run_once w).queue ≡ w.taken ++ w.queue
unfolding run_once
run_once-same w = by_queue w.queue refl
  where
    by_queue :
        (q : List Record)
        → w.queue ≡ q
        → (take_first q w).taken ++ (take_first q w).queue ≡ w.taken ++ w.queue
    by_queue [] e = refl
    by_queue (rec ∷ recs) e = rw e (append_assoc w.taken (rec ∷ []) recs)

run_once-queue : (w : Writer) → length (run_once w).queue ≤ length w.queue
unfolding run_once
run_once-queue w = by_queue w.queue refl
  where
    by_queue : (q : List Record) → w.queue ≡ q → length (take_first q w).queue ≤ length w.queue
    by_queue [] e = omega arith
    by_queue (rec ∷ recs) e = rw e (omega arith)

Follows-after :
    (w w' w'' : Writer) (recs : List Record)
    → w'.taken ++ w'.queue ≡ w.taken ++ w.queue
    → w'.dropped ≡ w.dropped
    → ((length w.queue ≤ queue_size) → length w'.queue ≤ queue_size)
    → Follows w' w'' recs
    → Follows w w'' recs
Follows-after w w' w'' recs same dropped bounded f = record {
  accepted = f.accepted;
  lost = f.lost;
  order = f.order ∙ ap (λ t. t ++ f.accepted) same;
  part = f.part;
  counted = omega (arith, f.counted, dropped);
  bounded = λ b. f.bounded (bounded b);
}

Follows-queued :
    (rec : Record) (recs : List Record) (w w'' : Writer)
    → length w.queue < queue_size
    → Follows (record w { queue = w.queue ++ rec ∷ [] }) w'' recs
    → Follows w w'' (rec ∷ recs)
Follows-queued rec recs w w'' room f = record {
  accepted = rec ∷ f.accepted;
  lost = f.lost;
  order =
      f.order
      ∙ ap (λ t. t ++ f.accepted) (sym (append_assoc w.taken w.queue (rec ∷ [])))
      ∙ append_assoc (w.taken ++ w.queue) (rec ∷ []) f.accepted;
  part = kept rec f.part;
  counted = f.counted;
  bounded = λ b. f.bounded (rw (length-append w.queue (rec ∷ [])) (omega (arith, room)));
}

Follows-dropped :
    (rec : Record) (recs : List Record) (w w'' : Writer)
    → Follows (record w { dropped = w.dropped + 1 }) w'' recs
    → Follows w w'' (rec ∷ recs)
Follows-dropped rec recs w w'' f = record {
  accepted = f.accepted;
  lost = suc f.lost;
  order = f.order;
  part = left_out rec f.part;
  counted = omega (arith, f.counted);
  bounded = f.bounded;
}

run_once-counters :
    (w : Writer) → ((run_once w).closed ≡ w.closed) × ((run_once w).dropped ≡ w.dropped)
unfolding run_once
run_once-counters w = by_queue w.queue
  where
    by_queue :
        (q : List Record)
        → ((take_first q w).closed ≡ w.closed) × ((take_first q w).dropped ≡ w.dropped)
    by_queue [] = (refl, refl)
    by_queue (rec ∷ recs) = (refl, refl)

Follows-drained :
    (w w'' : Writer) (recs : List Record) → Follows (run_once w) w'' recs → Follows w w'' recs
Follows-drained w w'' recs f =
    let fewer = run_once-queue w in
    Follows-after w (run_once w) w'' recs (run_once-same w) (run_once-counters w).1
      (λ b. omega (arith, b, fewer)) f

Follows-closed : (w w'' : Writer) → Follows (close w) w'' [] → Follows w w'' []
unfolding close
Follows-closed w w'' f = Follows-after w (close w) w'' [] refl refl (λ b. b) f

enqueue-closed : (rec : Record) (w : Writer) → w.closed ≡ true → enqueue rec w ≡ w
unfolding enqueue
enqueue-closed rec w shut = rw shut refl

enqueue-room :
    (rec : Record) (w : Writer)
    → w.closed ≡ false
    → ltb (length w.queue) queue_size ≡ true
    → enqueue rec w ≡ record w { queue = w.queue ++ rec ∷ [] }
unfolding enqueue
enqueue-room rec w opened room = rw (opened, room) refl

enqueue-full :
    (rec : Record) (w : Writer)
    → w.closed ≡ false
    → ltb (length w.queue) queue_size ≡ false
    → enqueue rec w ≡ record w { dropped = w.dropped + 1 }
unfolding enqueue
enqueue-full rec w opened full = rw (opened, full) refl

nothing-Follows : (w : Writer) → Follows w w []
nothing-Follows w = record {
  accepted = [];
  lost = 0;
  order = sym (append-nil (w.taken ++ w.queue));
  part = done;
  counted = omega arith;
  bounded = λ b. b;
}

run-Follows_lem :
    (es : List Event) (shut : Bool) (w : Writer)
    → w.closed ≡ shut
    → Follows w (run es w) (offered_to shut es)
run-Follows_lem [] true w h = nothing-Follows w
run-Follows_lem [] false w h = nothing-Follows w
run-Follows_lem (recorded rec ∷ es) true w h =
    rw (enqueue-closed rec w h) (run-Follows_lem es true w h)
run-Follows_lem (recorded rec ∷ es) false w h =
    elim (Bool-cases (ltb (length w.queue) queue_size)) [
      | inl room ↦ rw (enqueue-room rec w h room) (
          Follows-queued rec (offered es) w _ (ltb→lt (length w.queue) queue_size room)
            (run-Follows_lem es false (record w { queue = w.queue ++ rec ∷ [] }) h))
      | inr full ↦ rw (enqueue-full rec w h full) (
          Follows-dropped rec (offered es) w _
            (run-Follows_lem es false (record w { dropped = w.dropped + 1 }) h))
    ]
run-Follows_lem (drained ∷ es) true w h =
    Follows-drained w _ [] (run-Follows_lem es true (run_once w) ((run_once-counters w).0 ∙ h))
run-Follows_lem (drained ∷ es) false w h =
    Follows-drained w _ (offered es)
      (run-Follows_lem es false (run_once w) ((run_once-counters w).0 ∙ h))
run-Follows_lem (ended ∷ es) true w h =
    Follows-closed w _ (run-Follows_lem es true (close w) (unfold close in refl))
run-Follows_lem (ended ∷ es) false w h =
    Follows-closed w _ (run-Follows_lem es true (close w) (unfold close in refl))

-- Through any calls of `Record` and `Close` and rounds of the goroutine, in any order: the records
-- that were taken to be written, followed by those that wait, are the ones handed to `Record` before
-- the first `Close`, in that order, without the ones that were dropped, and the count of dropped ones
-- is exact; never more than 256 wait.
pub run-IsPart :
    (es : List Event)
    → IsPart
        ((run es new_writer).taken ++ (run es new_writer).queue)
        (offered es)
        (run es new_writer).dropped
      × (length (run es new_writer).queue ≤ queue_size)
run-IsPart es =
    let f = run-Follows_lem es false new_writer refl in
    let lost : (run es new_writer).dropped ≡ f.lost = omega (arith, f.counted) in
    (rw (lost, f.order) f.part, f.bounded (omega arith))
