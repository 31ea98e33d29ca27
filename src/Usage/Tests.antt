-- ===== src/Usage/Tests.antt =====
-- Concrete attempts.
use simple_api.Base.{◌≡◌, true, false, List, [], ◌∷◌, nat_eq, bool_eq, pair_eq, codes, text_eq}
use simple_api.Base.Dict.{lookup}
use simple_api.Base.Sort.{Ordered}
use simple_api.Usage.Report.{Listed, snapshot-Listed}
use mathlib.Core.List.{Perm}
use simple_api.Usage.{Key, key_eq, no_counts, snapshot}
use simple_api.Usage.Totals.{Attempt, record_all, attempts_of, row_of, lookup-record_all}

abbrev key : Key
key = record {
  provider = codes "p";
  provider_type = codes "codex";
  alias_a = codes "a";
  upstream_model = codes "m";
  internal_model_id = codes "p/a";
  source_protocol = codes "codex";
  target_provider_type = codes "codex";
  http_status = 200;
}

abbrev attempts : List Attempt
attempts =
    record { key = key; counts = record no_counts { input = 5 }; failed = false }
    ∷ record { key = key; counts = record no_counts { input = 7 }; failed = true }
    ∷ []

lookup-record_all_example : lookup key (record_all attempts) ≡ row_of (attempts_of key attempts)
lookup-record_all_example = lookup-record_all attempts key

snapshot-Listed_example :
    Ordered Listed (snapshot (record_all attempts))
    × ((lookup key (snapshot (record_all attempts)) ≡ row_of (attempts_of key attempts))
        × Perm (snapshot (record_all attempts)) (record_all attempts))
snapshot-Listed_example = snapshot-Listed attempts key
