-- ===== src/Management/Panics.antt =====
-- Handlers that no other call comes between.
use simple_api.Config.{Provider, ClientApiKey, Config}
use simple_api.Config.Validate.{validate}
use simple_api.Indexes.{Indexes}
use simple_api.Management.Commit.{Applied, apply_and_commit-Applied, nothing, everything}
use simple_api.Management.Sequences.{
  Call, handle, put_config_call, put_payload_call, create_key_call, put_key_call, delete_key_call,
  create_provider_call, put_provider_call, delete_provider_call, reload_call,
}
use simple_api.Base.{
  ℕ, ◌<◌, ◌≡◌, refl, ◌≢◌, inl, inr, Bool, true, false, not, Option, none, some, option_map, List,
  [], ◌∷◌, arith, if◌then◌else◌, Bool-cases, length, is_empty, Text, map-suc-eq-some,
}
use simple_api.Management.{
  State, Outside, Response, position, api_key_index, provider_index, set_at, cut_at, with_keys,
  with_providers, expanded, apply_and_commit, respond, commit_if, mutate_raw, put_config,
  put_payload, create_api_key, put_key_at, put_api_key, delete_key_if, delete_api_key,
  create_provider, put_provider_at, put_provider, in_use, delete_provider_if, delete_provider,
  reload_indexes, reload_with, reload, refused, panicked,
}

position-lt :
    {A : Type 0} (p : A → Bool) (xs : List A) (i : ℕ) → position p xs ≡ some i → i < length xs
position-lt p [] i h = cc
position-lt p (x ∷ xs) i h = elim (Bool-cases (p x)) [
  | inl found ↦ ground (arith, found)
  | inr missed ↦
      let (j, here, eq) = map-suc-eq-some (position p xs) (rw missed at h) in
      let below = position-lt p xs j here in omega (arith, eq, below)
]

module _ (out : Outside) (writable : Bool) where
  respond-ne-panicked :
      (status : ℕ) {raw : Config} {s : State} (r : Bool × (Response × State))
      → Applied out writable raw s r
      → (respond out writable status r).0 ≢ panicked
  respond-ne-panicked status _ (nothing r ne) = ne
  respond-ne-panicked status _ (everything idx bytes v b m w) = λ p. cc

  commit-ne-panicked :
      (status : ℕ) (raw : Config) (s : State)
      → (respond out writable status (apply_and_commit out writable raw s)).0 ≢ panicked
  commit-ne-panicked status raw s =
      respond-ne-panicked status _ (apply_and_commit-Applied out writable raw s)

  commit_if-ne-panicked :
      (status : ℕ) (raw : Option Config) (s : State)
      → raw ≢ none
      → (commit_if out writable status raw s).0 ≢ panicked
  commit_if-ne-panicked status none s ne = λ p. ne refl
  commit_if-ne-panicked status (some raw) s ne = commit-ne-panicked status raw s

  mutate_raw-ne-panicked :
      (status : ℕ) (mutate : Config → Option Config) (s : State)
      → mutate (out.deep_copy s.raw) ≢ none
      → (mutate_raw out writable status mutate s).0 ≢ panicked
  unfolding mutate_raw
  mutate_raw-ne-panicked status mutate s ne = commit_if-ne-panicked status _ s ne

  -- The handler's search and its change see the same config.
  abbrev pub IsAlone : Call → State → Type 0
  IsAlone (put_key_call name body seen) s = seen ≡ s.raw
  IsAlone (delete_key_call name seen) s = seen ≡ s.raw
  IsAlone (put_provider_call name body seen) s = seen ≡ s.raw
  IsAlone (delete_provider_call name seen) s = seen ≡ s.raw
  IsAlone _ s = Unit

  set_at-ne-none :
      {A : Type 0} (f : List A → Config) (xs : List A) (i : ℕ) (v : A)
      → i < length xs
      → option_map f (set_at xs i v) ≢ none
  set_at-ne-none f xs i v h = ground arith

  cut_at-ne-none :
      {A : Type 0} (f : List A → Config) (xs : List A) (i : ℕ)
      → i < length xs
      → option_map f (cut_at xs (some i)) ≢ none
  cut_at-ne-none f xs i h = ground arith

  put_key_at-ne-panicked :
      (name : Text) (k : ClientApiKey) (s : State) (at : Option ℕ)
      → out.deep_copy s.raw ≡ s.raw
      → api_key_index s.raw name ≡ at
      → (put_key_at out writable at k s).0 ≢ panicked
  unfolding api_key_index
  put_key_at-ne-panicked name k s none copy e = λ p. cc
  put_key_at-ne-panicked name k s (some i) copy e = mutate_raw-ne-panicked 200 _ s (
      rw copy
        (set_at-ne-none (with_keys s.raw) s.raw.api_keys i k (position-lt _ s.raw.api_keys i e)))

  delete_key_if-ne-panicked :
      (name : Text) (s : State) (at : Option ℕ)
      → out.deep_copy s.raw ≡ s.raw
      → api_key_index s.raw name ≡ at
      → (delete_key_if out writable at name s).0 ≢ panicked
  unfolding api_key_index
  delete_key_if-ne-panicked name s none copy e = λ p. cc
  delete_key_if-ne-panicked name s (some i) copy e = mutate_raw-ne-panicked 204 _ s (
      rw (copy, e)
        (cut_at-ne-none (with_keys s.raw) s.raw.api_keys i (position-lt _ s.raw.api_keys i e)))

  put_provider_at-ne-panicked :
      (name : Text) (v : Provider) (s : State) (at : Option ℕ)
      → out.deep_copy s.raw ≡ s.raw
      → provider_index s.raw name ≡ at
      → (put_provider_at out writable at v s).0 ≢ panicked
  unfolding provider_index
  put_provider_at-ne-panicked name v s none copy e = λ p. cc
  put_provider_at-ne-panicked name v s (some i) copy e = mutate_raw-ne-panicked 200 _ s (
      rw copy (
        set_at-ne-none (with_providers s.raw) s.raw.providers i v
          (position-lt _ s.raw.providers i e)))

  refuse_or-ne-panicked :
      (b : Bool) (status : ℕ) (code : Text) (s : State) (m : Response × State)
      → m.0 ≢ panicked
      → (if b then (refused status code, s) else m).0 ≢ panicked
  refuse_or-ne-panicked true status code s m ne = λ p. cc
  refuse_or-ne-panicked false status code s m ne = ne

  delete_provider_if-ne-panicked :
      (name : Text) (s : State) (at : Option ℕ)
      → out.deep_copy s.raw ≡ s.raw
      → provider_index s.raw name ≡ at
      → (delete_provider_if out writable at name s.raw s).0 ≢ panicked
  unfolding provider_index
  delete_provider_if-ne-panicked name s none copy e = λ p. cc
  delete_provider_if-ne-panicked name s (some i) copy e =
      refuse_or-ne-panicked (in_use out writable name s.raw.api_keys) _ _ s _ (
        mutate_raw-ne-panicked 204 _ s (
          rw (copy, e)
            (cut_at-ne-none (with_providers s.raw) s.raw.providers i
              (position-lt _ s.raw.providers i e))))

  reload_indexes-ne-panicked :
      (raw : Config) (idx : Option Indexes) (s : State)
      → (reload_indexes out writable raw idx s).0 ≢ panicked
  reload_indexes-ne-panicked raw none s = λ p. cc
  reload_indexes-ne-panicked raw (some idx) s = λ p. cc

  reload_with-ne-panicked :
      (raw : Option Config) (s : State) → (reload_with out writable raw s).0 ≢ panicked
  reload_with-ne-panicked none s = λ p. cc
  reload_with-ne-panicked (some raw) s =
      elim (Bool-cases (not (is_empty (validate out.json_valid (expanded out raw))))) [
        | inl bad ↦ rw bad (λ p. cc)
        | inr good ↦ rw good (reload_indexes-ne-panicked raw _ s)
      ]

  -- A call that no other change comes between (the config that the handler searches is the one that it
  -- changes), with a `DeepCopy` that gives the config back, never writes to or cuts a list out of its
  -- range.
  pub handle-ne-panicked :
      (call : Call) (s : State)
      → out.deep_copy s.raw ≡ s.raw
      → IsAlone call s
      → (handle out writable call s).0 ≢ panicked
  unfolding put_config put_payload create_api_key put_api_key delete_api_key create_provider
      put_provider delete_provider reload
  handle-ne-panicked (put_config_call none) s copy alone = λ p. cc
  handle-ne-panicked (put_config_call (some cfg)) s copy alone = commit-ne-panicked 200 cfg s
  handle-ne-panicked (put_payload_call none) s copy alone = λ p. cc
  handle-ne-panicked (put_payload_call (some pc)) s copy alone =
      mutate_raw-ne-panicked 200 _ s (λ p. cc)
  handle-ne-panicked (create_key_call none) s copy alone = λ p. cc
  handle-ne-panicked (create_key_call (some k)) s copy alone =
      mutate_raw-ne-panicked 201 _ s (λ p. cc)
  handle-ne-panicked (put_key_call name none seen) s copy alone = λ p. cc
  handle-ne-panicked (put_key_call name (some k) seen) s copy alone =
      rw alone (put_key_at-ne-panicked name k s _ copy refl)
  handle-ne-panicked (delete_key_call name seen) s copy alone =
      rw alone (delete_key_if-ne-panicked name s _ copy refl)
  handle-ne-panicked (create_provider_call none) s copy alone = λ p. cc
  handle-ne-panicked (create_provider_call (some v)) s copy alone =
      mutate_raw-ne-panicked 201 _ s (λ p. cc)
  handle-ne-panicked (put_provider_call name none seen) s copy alone = λ p. cc
  handle-ne-panicked (put_provider_call name (some v) seen) s copy alone =
      rw alone (put_provider_at-ne-panicked name v s _ copy refl)
  handle-ne-panicked (delete_provider_call name seen) s copy alone =
      rw alone (delete_provider_if-ne-panicked name s _ copy refl)
  handle-ne-panicked reload_call s copy alone = reload_with-ne-panicked _ s
