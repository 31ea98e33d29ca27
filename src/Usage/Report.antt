-- ===== src/Usage/Report.antt =====
-- The rows of `Snapshot`.
use simple_api.Base.{
  ◌≤◌, ◌≡◌, ◌∙◌, ◌⊎◌, Bool, true, false, List, [], ◌∷◌, arith, nat_eq, bool_eq, pair_eq,
  text_beq_iff, text_eq, text_lt,
}
use simple_api.Base.Sort.{Ordered, sort-perm, IsOrder, sort-Ordered}
use simple_api.Base.Order.{text_lt_total, by_text-IsOrder}
use simple_api.Base.Int64.{flip, slt}
use simple_api.Usage.{Key, key_eq, record_attempt, Item, item_before, snapshot}
use simple_api.Usage.Totals.{Attempt, record_all, attempts_of, row_of, lookup-record_all}
use simple_api.Base.SortedMap.{HasOneEach, insert-HasOneEach, lookup-sort}
use simple_api.Base.Dict.{lookup}
use mathlib.Core.List.{Perm}

abbrev status_before : Item → Item → Bool
status_before a b = slt a.0.http_status b.0.http_status

status_before-IsOrder : IsOrder status_before
status_before-IsOrder = record { asym = λ a b h. ground arith; trans = λ a b c h k. ground arith }

item_before-IsOrder : IsOrder item_before
item_before-IsOrder =
    by_text-IsOrder (λ a. a.0.internal_model_id) _
      (by_text-IsOrder (λ a. a.0.source_protocol) _ status_before-IsOrder)

-- A row is listed before another, or the two agree in what orders them.
abbrev pub Listed : Item → Item → Type 0
Listed a b =
    (text_lt a.0.internal_model_id b.0.internal_model_id ≡ true)
    ⊎ ((a.0.internal_model_id ≡ b.0.internal_model_id)
        × ((text_lt a.0.source_protocol b.0.source_protocol ≡ true)
            ⊎ ((a.0.source_protocol ≡ b.0.source_protocol)
                × (flip a.0.http_status ≤ flip b.0.http_status))))

item_before-Listed : (a b : Item) → item_before b a ≡ false → Listed a b
item_before-Listed a b h = ground (
  arith,
  text_beq_iff b.0.internal_model_id a.0.internal_model_id,
  text_beq_iff b.0.source_protocol a.0.source_protocol,
  text_lt_total a.0.internal_model_id b.0.internal_model_id,
  text_lt_total a.0.source_protocol b.0.source_protocol,
)

record_all-HasOneEach : (h : List Attempt) → HasOneEach (record_all h)
unfolding record_all record_attempt
record_all-HasOneEach [] = tt
record_all-HasOneEach (a ∷ h) = insert-HasOneEach a.key _ (record_all h) (record_all-HasOneEach h)

-- After any sequence of `Record` calls, `Snapshot` lists the rows by internal model in byte order,
-- then by source protocol, then by rising status; it has one row for each key that was recorded, with
-- the sums over exactly the attempts that had the key, and no other rows.
pub snapshot-Listed :
    (h : List Attempt) (k : Key)
    → Ordered Listed (snapshot (record_all h))
      × ((lookup k (snapshot (record_all h)) ≡ row_of (attempts_of k h))
          × Perm (snapshot (record_all h)) (record_all h))
unfolding snapshot
snapshot-Listed h k = (
  sort-Ordered item_before Listed (record_all h) item_before-IsOrder item_before-Listed,
  (
    lookup-sort item_before (record_all h) k (record_all-HasOneEach h) ∙ lookup-record_all h k,
    sort-perm item_before (record_all h),
  ),
)
