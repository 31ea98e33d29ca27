-- ===== src/Archive.antt =====
-- internal/archive/archive.go: the queue between the requests and the goroutine that writes records.
-- The JSON text of a record, the text of a time, and what the file system does are arguments.
pub mod Order
pub mod Draining
mod Tests
use simple_api.Base.{
  ℕ, ◌+◌, ◌-◌, ◌/◌, ◌%◌, Bool, true, false, not, ◌&&◌, Option, none, some, List, [], ◌∷◌, ◌++◌, ltb,
  if◌then◌else◌, nat_eq, bool_eq, pair_eq, length, take, is_empty, Text, codes, text_eq,
}
use simple_api.Base.Dict.{Map, insert}
use simple_api.Usage.{key_eq, Counts}

pub record Record : Type 0 where
  pub dir : Text
  pub timestamp : ℕ
  pub request_id : Text
  pub api_key : Text
  pub model : Text
  pub internal_model : Text
  pub provider_type : Text
  pub tokens : Counts
  pub request : Text
  pub response : Option Text
  pub response_stream : Option Text

abbrev pub queue_size : ℕ
queue_size = 256

-- `Writer`: the buffered channel, what `run` has taken out of it, and the number of records dropped
-- with a warning.
pub record Writer : Type 0 where
  pub queue : List Record
  pub closed : Bool
  pub taken : List Record
  pub dropped : ℕ

abbrev pub new_writer : Writer
new_writer = record { queue = []; closed = false; taken = []; dropped = 0 }

-- `Writer.Record`.
unfoldable pub enqueue : Record → Writer → Writer
enqueue rec w =
    if w.closed
    then w
    else if ltb (length w.queue) queue_size
    then record w { queue = w.queue ++ rec ∷ [] }
    else record w { dropped = w.dropped + 1 }

-- `Close`, before it waits.
unfoldable pub close : Writer → Writer
close w = record w { closed = true }

abbrev pub take_first : List Record → Writer → Writer
take_first [] w = w
take_first (rec ∷ recs) w = record w { queue = recs; taken = w.taken ++ rec ∷ [] }

-- One round of the loop of `run`; on an empty queue it waits.
unfoldable pub run_once : Writer → Writer
run_once w = take_first w.queue w

-- `Close` returns, and `run` has ended: the channel is closed and empty.
abbrev pub has_ended : Writer → Bool
has_ended w = w.closed && is_empty w.queue

-- What a call of `os.WriteFile` does.
pub data Stored : Type 0 where
  stored : Stored
  not_opened : Stored
  cut_after : ℕ → Stored

pub record Disk : Type 0 where
  -- `json.MarshalIndent`, and the time in the layout "20060102T150405"
  pub marshal : Record → Option Text
  pub time_text : ℕ → Text
  pub make_dir : Text → Bool
  -- `filepath.Join`
  pub join : Text → Text → Text
  pub store : Text → Stored

-- `%03d`, of a number below 1000.
abbrev three_digits : ℕ → Text
three_digits n = (48 + n / 100) ∷ (48 + n / 10 % 10) ∷ (48 + n % 10) ∷ []

abbrev save : Stored → (path text : Text) → Map Text Text → Map Text Text
unfolding insert
save stored path text files = insert path text files
save not_opened path text files = files
save (cut_after n) path text files = insert path (take n text) files

module _ (disk : Disk) where
  -- `fileName`.
  abbrev pub file_name : Record → Text
  file_name rec =
      disk.time_text rec.timestamp
      ++ (codes "-"
          ++ (three_digits (rec.timestamp % 1000000000 / 1000000)
              ++ (codes "_" ++ (rec.request_id ++ codes ".json"))))

  abbrev write_text : Option Text → Record → Map Text Text → Map Text Text
  unfolding insert
  write_text none rec files = files
  write_text (some text) rec files =
      if not (disk.make_dir rec.dir)
      then files
      else save (disk.store (disk.join rec.dir (file_name rec))) (disk.join rec.dir (file_name rec))
          text files

  -- `Writer.write`, on the files.
  unfoldable pub write : Record → Map Text Text → Map Text Text
  unfolding insert
  write rec files = write_text (disk.marshal rec) rec files

  -- The files after the records that `run` has taken.
  unfoldable pub write_all : List Record → Map Text Text → Map Text Text
  unfolding write
  write_all [] files = files
  write_all (rec ∷ recs) files = write_all recs (write rec files)
