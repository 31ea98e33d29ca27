-- ===== src/Limiter.antt =====
-- internal/concurrency/limiter.go: how many upstream requests of each provider are in flight. A
-- `release` closure that `Acquire` returned is a handle; its `sync.Once` is the handle's mark.
pub mod Counting
pub mod Bounds
mod Tests
use simple_api.Base.{
  ℕ, ◌-◌, Bool, true, false, not, Option, none, some, List, [], ◌∷◌, ◌++◌, if◌then◌else◌, nat_eq,
  bool_eq, pair_eq, length, get_elem?, set, Text, text_eq,
}
use simple_api.Base.Dict.{Map, lookup, insert, delete}
use simple_api.Base.Int64.{Int64, add64, slt, sle, positive}

pub data Handle : Type 0 where
  -- the closure of a provider without a limit
  no_slot : Handle
  -- a slot of a provider, and whether the closure has run
  slot : Text → Bool → Handle

-- The limiter and the closures that it has given out, oldest first.
pub record Limiter : Type 0 where
  pub in_flight : Map Text Int64
  pub handles : List Handle

abbrev pub new : Limiter
new = record { in_flight = []; handles = [] }

-- Indexing a Go map gives 0 where the key is missing.
abbrev pub or_zero : Option Int64 → Int64
or_zero none = 0
or_zero (some n) = n

-- `InFlight`.
unfoldable pub in_flight : Limiter → Text → Int64
in_flight l p = or_zero (lookup p l.in_flight)

-- `Acquire`: the limiter afterwards, and the position of the new handle if there is one.
unfoldable pub acquire : Limiter → Text → Int64 → Limiter × Option ℕ
acquire l p limit =
    if not (positive limit)
    then (record l { handles = l.handles ++ no_slot ∷ [] }, some (length l.handles))
    else if sle limit (in_flight l p)
    then (l, none)
    else (
      record {
        in_flight = insert p (add64 (in_flight l p) 1) l.in_flight;
        handles = l.handles ++ slot p false ∷ [];
      },
      some (length l.handles),
    )

-- `release`.
unfoldable pub release : Map Text Int64 → Text → Map Text Int64
release m p = let n = or_zero (lookup p m) in if slt 1 n then insert p (n - 1) m else delete p m

-- A call of the closure at position `i`.
unfoldable pub call_handle : Option Handle → ℕ → Limiter → Limiter
unfolding release
call_handle (some (slot p false)) i l = record {
  in_flight = release l.in_flight p;
  handles = set l.handles i (slot p true);
}
call_handle _ i l = l

unfoldable pub call_release : ℕ → Limiter → Limiter
unfolding call_handle
call_release i l = call_handle (get_elem? l.handles i) i l
