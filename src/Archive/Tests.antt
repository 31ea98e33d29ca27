-- ===== src/Archive/Tests.antt =====
-- Two records, with a round of the goroutine between them and a third behind the end.
use simple_api.Archive.Draining.{close-has_ended}
use simple_api.Base.Dict.{insert}
use simple_api.Base.{
  ℕ, ◌≤◌, ◌≡◌, refl, true, none, some, List, [], ◌∷◌, ◌++◌, arith, nat_eq, bool_eq, pair_eq, length,
  codes, text_eq,
}
use simple_api.Usage.{key_eq, no_counts}
use simple_api.Archive.{
  Record, Writer, new_writer, enqueue, close, run_once, has_ended, Disk, write, write_all, stored,
}
use simple_api.Archive.Order.{Event, run, IsPart, run-IsPart, recorded, drained, ended}

abbrev numbered : ℕ → Record
numbered n = record {
  dir = codes "d";
  timestamp = n;
  request_id = codes "req";
  api_key = [];
  model = [];
  internal_model = [];
  provider_type = [];
  tokens = no_counts;
  request = [];
  response = none;
  response_stream = none;
}

abbrev events : List Event
events =
    recorded (numbered 1) ∷ drained ∷ recorded (numbered 2) ∷ ended ∷ recorded (numbered 3) ∷ []

waiting : (run events new_writer).queue ≡ numbered 2 ∷ []
unfolding enqueue run_once close
waiting = refl

run-IsPart_example :
    IsPart
      ((run events new_writer).taken ++ (run events new_writer).queue)
      (numbered 1 ∷ numbered 2 ∷ [])
      (run events new_writer).dropped
    × (length (run events new_writer).queue ≤ 256)
run-IsPart_example = run-IsPart events

abbrev full : Writer
full = record new_writer { queue = numbered 1 ∷ numbered 2 ∷ [] }

close-has_ended_example :
    ((run (drained ∷ recorded (numbered 3) ∷ drained ∷ []) (close full)).taken
      ≡ numbered 1 ∷ numbered 2 ∷ [])
    × (has_ended (run (drained ∷ recorded (numbered 3) ∷ drained ∷ []) (close full)) ≡ true)
close-has_ended_example =
    close-has_ended (drained ∷ recorded (numbered 3) ∷ drained ∷ []) full (omega arith)

abbrev disk : Disk
disk = record {
  marshal = λ rec. some (codes "text");
  time_text = λ t. codes "T";
  make_dir = λ dir. true;
  join = λ dir name. dir ++ (codes "/" ++ name);
  store = λ path. stored;
}

one_file :
    write_all disk (record (numbered 1) { timestamp = 5123000000 } ∷ []) []
    ≡ (codes "d/T-123_req.json", codes "text") ∷ []
unfolding write_all write insert
one_file = refl
