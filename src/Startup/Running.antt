-- ===== src/Startup/Running.antt =====
-- The program starts on every valid config file, and its state stays consistent.
use simple_api.Base.{◌≡◌, refl, Bool, some, List, [], Text}
use simple_api.Config.{Config}
use simple_api.Config.Validate.{validate}
use simple_api.Indexes.Complete.{build_total}
use simple_api.Management.{State, Outside, expanded}
use simple_api.Management.Commit.{IsConsistent}
use simple_api.Management.Sequences.{Call, run, run-IsConsistent}
use simple_api.Startup.{start}

-- On a config file that decodes, and whose expanded copy has no validation error, the program starts;
-- and after any sequence of management calls the running config is the valid expansion of the raw one,
-- with its own indexes.
pub start-run-IsConsistent :
    (out : Outside) (file : Text) (raw : Config) (calls : List (Bool × Call))
    → out.decode file ≡ some raw
    → validate out.json_valid (expanded out raw) ≡ []
    → (s : State) × ((start out file ≡ some s) × IsConsistent out (run out calls s))
unfolding start
start-run-IsConsistent out file raw calls decoded valid =
    let (idx, built) = build_total out.json_valid (expanded out raw) valid in
    let s : State = record { raw = raw; cfg = expanded out raw; indexes = idx; file = file } in
    (
      s,
      (
        rw (decoded, valid, built) refl,
        run-IsConsistent out calls s (record { expansion = refl; valid = valid; indexed = built }),
      ),
    )
