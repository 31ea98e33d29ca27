-- ===== src/Management/Sequences.antt =====
-- Sequences of the calls that change the config.
use simple_api.Base.{
  ℕ, ◌≡◌, refl, Bool, true, false, not, Option, none, some, List, [], ◌∷◌, if◌then◌else◌, is_empty,
  Text,
}
use simple_api.Config.{PayloadConfig, Provider, ClientApiKey, Config}
use simple_api.Config.Payload.{ValidationError}
use simple_api.Config.Validate.{validate}
use simple_api.Indexes.{Indexes, build}
use simple_api.Management.{
  State, Outside, Response, expanded, put_config, put_payload, create_api_key, put_key_at,
  put_api_key, delete_key_if, delete_api_key, create_provider, put_provider_at, put_provider,
  in_use, delete_provider_if, delete_provider, reload_indexes, reload_with, reload, invalid,
}
use simple_api.Management.Commit.{IsConsistent, commit-IsConsistent, mutate_raw-IsConsistent}

-- The handlers' calls, each with the decoded body, where there is one, and the config that the
-- handler searches.
pub data Call : Type 0 where
  put_config_call : Option Config → Call
  put_payload_call : Option PayloadConfig → Call
  create_key_call : Option ClientApiKey → Call
  put_key_call : Text → Option ClientApiKey → Config → Call
  delete_key_call : Text → Config → Call
  create_provider_call : Option Provider → Call
  put_provider_call : Text → Option Provider → Config → Call
  delete_provider_call : Text → Config → Call
  reload_call : Call

module _ (out : Outside) where
  -- With whether the config file can be written.
  abbrev pub handle : Bool → Call → State → Response × State
  handle writable (put_config_call body) s = put_config out writable body s
  handle writable (put_payload_call body) s = put_payload out writable body s
  handle writable (create_key_call body) s = create_api_key out writable body s
  handle writable (put_key_call name body seen) s = put_api_key out writable name body seen s
  handle writable (delete_key_call name seen) s = delete_api_key out writable name seen s
  handle writable (create_provider_call body) s = create_provider out writable body s
  handle writable (put_provider_call name body seen) s = put_provider out writable name body seen s
  handle writable (delete_provider_call name seen) s = delete_provider out writable name seen s
  handle writable reload_call s = reload out writable s

  abbrev pub run : List (Bool × Call) → State → State
  run [] s = s
  run ((writable, call) ∷ calls) s = run calls (handle writable call s).1

  reload_indexes-IsConsistent :
      (writable : Bool) (raw : Config) (idx : Option Indexes) (s : State)
      → validate out.json_valid (expanded out raw) ≡ []
      → build (expanded out raw) ≡ idx
      → IsConsistent out s
      → IsConsistent out (reload_indexes out writable raw idx s).1
  reload_indexes-IsConsistent writable raw none s v b c = c
  reload_indexes-IsConsistent writable raw (some idx) s v b c = record {
    expansion = refl;
    valid = v;
    indexed = b;
  }

  reload_by_errors :
      (writable : Bool) (raw : Config) (errs : List ValidationError) (s : State)
      → validate out.json_valid (expanded out raw) ≡ errs
      → IsConsistent out s
      → IsConsistent out
          (if not (is_empty errs)
            then (invalid errs, s)
            else reload_indexes out writable raw (build (expanded out raw)) s).1
  reload_by_errors writable raw [] s v c = reload_indexes-IsConsistent writable raw _ s v refl c
  reload_by_errors writable raw (e ∷ errs) s v c = c

  reload_with-IsConsistent :
      (writable : Bool) (raw : Option Config) (s : State)
      → IsConsistent out s
      → IsConsistent out (reload_with out writable raw s).1
  reload_with-IsConsistent writable none s c = c
  reload_with-IsConsistent writable (some raw) s c = reload_by_errors writable raw _ s refl c

  put_key_at-IsConsistent :
      (writable : Bool) (at : Option ℕ) (k : ClientApiKey) (s : State)
      → IsConsistent out s
      → IsConsistent out (put_key_at out writable at k s).1
  put_key_at-IsConsistent writable none k s c = c
  put_key_at-IsConsistent writable (some i) k s c = mutate_raw-IsConsistent out writable 200 _ s c

  delete_key_if-IsConsistent :
      (writable : Bool) (at : Option ℕ) (name : Text) (s : State)
      → IsConsistent out s
      → IsConsistent out (delete_key_if out writable at name s).1
  delete_key_if-IsConsistent writable none name s c = c
  delete_key_if-IsConsistent writable (some i) name s c =
      mutate_raw-IsConsistent out writable 204 _ s c

  put_provider_at-IsConsistent :
      (writable : Bool) (at : Option ℕ) (p : Provider) (s : State)
      → IsConsistent out s
      → IsConsistent out (put_provider_at out writable at p s).1
  put_provider_at-IsConsistent writable none p s c = c
  put_provider_at-IsConsistent writable (some i) p s c =
      mutate_raw-IsConsistent out writable 200 _ s c

  refuse_or :
      (b : Bool) (r : Response) (s : State) (m : Response × State)
      → IsConsistent out s
      → IsConsistent out m.1
      → IsConsistent out (if b then (r, s) else m).1
  refuse_or true r s m c d = c
  refuse_or false r s m c d = d

  delete_provider_if-IsConsistent :
      (writable : Bool) (at : Option ℕ) (name : Text) (seen : Config) (s : State)
      → IsConsistent out s
      → IsConsistent out (delete_provider_if out writable at name seen s).1
  delete_provider_if-IsConsistent writable none name seen s c = c
  delete_provider_if-IsConsistent writable (some i) name seen s c =
      refuse_or (in_use out writable name seen.api_keys) _ s _ c
        (mutate_raw-IsConsistent out writable 204 _ s c)

  handle-IsConsistent :
      (writable : Bool) (call : Call) (s : State)
      → IsConsistent out s
      → IsConsistent out (handle writable call s).1
  unfolding put_config put_payload create_api_key put_api_key delete_api_key create_provider
      put_provider delete_provider reload
  handle-IsConsistent writable (put_config_call none) s c = c
  handle-IsConsistent writable (put_config_call (some cfg)) s c =
      commit-IsConsistent out writable 200 cfg s c
  handle-IsConsistent writable (put_payload_call none) s c = c
  handle-IsConsistent writable (put_payload_call (some pc)) s c =
      mutate_raw-IsConsistent out writable 200 _ s c
  handle-IsConsistent writable (create_key_call none) s c = c
  handle-IsConsistent writable (create_key_call (some k)) s c =
      mutate_raw-IsConsistent out writable 201 _ s c
  handle-IsConsistent writable (put_key_call name none seen) s c = c
  handle-IsConsistent writable (put_key_call name (some k) seen) s c =
      put_key_at-IsConsistent writable _ k s c
  handle-IsConsistent writable (delete_key_call name seen) s c =
      delete_key_if-IsConsistent writable _ name s c
  handle-IsConsistent writable (create_provider_call none) s c = c
  handle-IsConsistent writable (create_provider_call (some p)) s c =
      mutate_raw-IsConsistent out writable 201 _ s c
  handle-IsConsistent writable (put_provider_call name none seen) s c = c
  handle-IsConsistent writable (put_provider_call name (some p) seen) s c =
      put_provider_at-IsConsistent writable _ p s c
  handle-IsConsistent writable (delete_provider_call name seen) s c =
      delete_provider_if-IsConsistent writable _ name seen s c
  handle-IsConsistent writable reload_call s c = reload_with-IsConsistent writable _ s c

  -- From a running config that is the valid expansion of the raw one, with its own indexes, every
  -- sequence of management calls leads to such a state again: whether or not the file can be
  -- written, whatever the requests and the file hold, and also where a handler has searched an older
  -- config than the one that it changes.
  pub run-IsConsistent :
      (calls : List (Bool × Call)) (s : State) → IsConsistent out s → IsConsistent out (run calls s)
  run-IsConsistent [] s c = c
  run-IsConsistent ((writable, call) ∷ calls) s c =
      run-IsConsistent calls _ (handle-IsConsistent writable call s c)
