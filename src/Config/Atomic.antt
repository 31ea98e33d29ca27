-- ===== src/Config/Atomic.antt =====
-- internal/config/atomic.go: the steps of WriteFileAtomic on the files, by their names. The mode of the
-- temp file, and the texts of the errors, are left out.
use simple_api.Base.{
  ℕ, Bool, true, false, not, Option, none, some, List, [], ◌∷◌, if◌then◌else◌, nat_eq, bool_eq,
  pair_eq, take, Text, text_eq,
}
use simple_api.Base.Dict.{Map, lookup, insert, delete}

abbrev pub Files : Type 0
Files = Map Text Text

-- How the system answers: the name of the new temp file, the bytes written of a write that fails, and
-- whether each call succeeds.
pub record System : Type 0 where
  pub temp : Option Text
  pub failed_write : Option ℕ
  pub syncs : Bool
  pub closes : Bool
  pub chmods : Bool
  pub renames : Bool
  pub removes : Bool

abbrev rename_of : Option Text → (from to : Text) → Files → Files
unfolding insert delete
rename_of none from to fs = fs
rename_of (some bytes) from to fs = insert to bytes (delete from fs)

-- `os.Rename`.
unfoldable pub rename : (from to : Text) → Files → Files
unfolding lookup insert delete
rename from to fs = rename_of (lookup from fs) from to fs

-- The files after each step, and whether nil is returned.
abbrev pub Trace : Type 0
Trace = List Files × Bool

module _ (sys : System) (path bytes : Text) where
  -- `cleanup`, and the error.
  abbrev pub give_up : (tmp : Text) → Files → Trace
  unfolding delete
  give_up tmp fs = (fs ∷ (if sys.removes then delete tmp fs else fs) ∷ [], false)

  abbrev pub after_write : (tmp : Text) → Files → Trace
  unfolding delete rename
  after_write tmp fs =
      if not sys.syncs
      then give_up tmp fs
      else if not sys.closes
      then give_up tmp fs
      else if not sys.chmods
      then give_up tmp fs
      else if not sys.renames
      then give_up tmp fs
      else (fs ∷ rename tmp path fs ∷ [], true)

  abbrev pub write_temp : Option ℕ → (tmp : Text) → Files → Trace
  unfolding insert delete rename
  write_temp none tmp fs = after_write tmp (insert tmp bytes fs)
  write_temp (some count) tmp fs = give_up tmp (insert tmp (take count bytes) fs)

  abbrev pub with_temp : Option Text → Files → Trace
  unfolding insert delete rename
  with_temp none fs = ([], false)
  with_temp (some tmp) fs =
      let (states, ok) = write_temp sys.failed_write tmp (insert tmp [] fs) in
      (insert tmp [] fs ∷ states, ok)

  -- `WriteFileAtomic`.
  unfoldable pub write_file_atomic : Files → Trace
  unfolding insert delete rename
  write_file_atomic fs = with_temp sys.temp fs

abbrev pub final : List Files → Files → Files
final [] fs = fs
final (s ∷ states) fs = final states s
