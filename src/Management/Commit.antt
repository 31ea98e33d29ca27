-- ===== src/Management/Commit.antt =====
-- The config file, the running config and its indexes change together, or not at all.
use simple_api.Base.{
  ℕ, ◌≡◌, refl, ◌≢◌, ◌↔◌, Bool, true, false, not, Option, none, some, List, [], ◌∷◌, if◌then◌else◌,
  is_empty, Text,
}
use simple_api.Config.{Config}
use simple_api.Config.Payload.{ValidationError}
use simple_api.Config.Validate.{validate}
use simple_api.Indexes.{Indexes, build}
use simple_api.Indexes.Complete.{build_total}
use simple_api.Management.{
  State, Outside, Response, expanded, write_file, apply_and_commit, respond, commit_if, mutate_raw,
  done, invalid, panicked,
}

module _ (out : Outside) where
  -- The running config is the expansion of the raw one, is valid, and the indexes are its own.
  pub record IsConsistent (s : State) : Type 0 where
    pub expansion : s.cfg ≡ expanded out s.raw
    pub valid : validate out.json_valid s.cfg ≡ []
    pub indexed : build s.cfg ≡ some s.indexes

  -- What `applyAndCommit` may do with a candidate: nothing but a response, or all of it.
  pub data Applied (writable : Bool) (raw : Config) (s : State)
      : Bool × (Response × State) → Type 0 where
    nothing : (r : Response) → r ≢ panicked → Applied writable raw s (false, (r, s))
    everything :
        (idx : Indexes) (bytes : Text)
        → validate out.json_valid (expanded out raw) ≡ []
        → build (expanded out raw) ≡ some idx
        → out.marshal raw ≡ some bytes
        → writable ≡ true
        → Applied writable raw s (
          true,
          (done 200, record { raw = raw; cfg = expanded out raw; indexes = idx; file = bytes }),
        )

  write_file-Applied :
      (writable : Bool) (raw : Config) (s : State) (bytes : Option Text)
      → validate out.json_valid (expanded out raw) ≡ []
      → out.marshal raw ≡ bytes
      → Applied writable raw s (write_file out writable raw bytes s)
  write_file-Applied writable raw s none v m = nothing _ (λ p. cc)
  write_file-Applied false raw s (some bytes) v m = nothing _ (λ p. cc)
  write_file-Applied true raw s (some bytes) v m =
      let (idx, built) = build_total out.json_valid (expanded out raw) v in
      rw built (everything idx bytes v built m refl)

  by_errors :
      (writable : Bool) (raw : Config) (s : State) (errs : List ValidationError)
      → validate out.json_valid (expanded out raw) ≡ errs
      → Applied writable raw s (
          if not (is_empty errs)
          then (false, (invalid errs, s))
          else write_file out writable raw (out.marshal raw) s)
  by_errors writable raw s [] v = write_file-Applied writable raw s _ v refl
  by_errors writable raw s (e ∷ errs) v = nothing _ (λ p. cc)

  -- `applyAndCommit` either returns false and leaves the config file, the configs and the indexes as
  -- they were, or returns true with all of them replaced: the file holds the candidate's text, the
  -- running config is its expansion, which `Validate` accepts, and the indexes are what `Build`
  -- makes of it. The failure of `Build` behind the write of the file never happens.
  pub apply_and_commit-Applied :
      (writable : Bool) (raw : Config) (s : State)
      → Applied writable raw s (apply_and_commit out writable raw s)
  unfolding apply_and_commit
  apply_and_commit-Applied writable raw s = by_errors writable raw s _ refl

  Applied-IsConsistent :
      {writable : Bool} {raw : Config} {s : State} {r : Bool × (Response × State)}
      → Applied writable raw s r
      → IsConsistent s
      → IsConsistent r.1.1
  Applied-IsConsistent (nothing r ne) c = c
  Applied-IsConsistent (everything idx bytes v built m w) c = record {
    expansion = refl;
    valid = v;
    indexed = built;
  }

  respond-state :
      (writable : Bool) (status : ℕ) (r : Bool × (Response × State))
      → (respond out writable status r).1 ≡ r.1.1
  respond-state writable status (true, (response, s)) = refl
  respond-state writable status (false, (response, s)) = refl

  pub commit-IsConsistent :
      (writable : Bool) (status : ℕ) (raw : Config) (s : State)
      → IsConsistent s
      → IsConsistent (respond out writable status (apply_and_commit out writable raw s)).1
  commit-IsConsistent writable status raw s c =
      rw (respond-state writable status (apply_and_commit out writable raw s))
        (Applied-IsConsistent (apply_and_commit-Applied writable raw s) c)

  commit_if-IsConsistent :
      (writable : Bool) (status : ℕ) (raw : Option Config) (s : State)
      → IsConsistent s
      → IsConsistent (commit_if out writable status raw s).1
  commit_if-IsConsistent writable status none s c = c
  commit_if-IsConsistent writable status (some raw) s c =
      commit-IsConsistent writable status raw s c

  pub mutate_raw-IsConsistent :
      (writable : Bool) (status : ℕ) (mutate : Config → Option Config) (s : State)
      → IsConsistent s
      → IsConsistent (mutate_raw out writable status mutate s).1
  unfolding mutate_raw
  mutate_raw-IsConsistent writable status mutate s c = commit_if-IsConsistent writable status _ s c

  Applied-needs :
      {writable : Bool} {raw : Config} {s : State} {r : Bool × (Response × State)}
      → Applied writable raw s r
      → r.0 ≡ true
      → (validate out.json_valid (expanded out raw) ≡ [])
        × ((out.marshal raw ≢ none) × (writable ≡ true))
  Applied-needs (nothing r ne) h = cc
  Applied-needs (everything idx bytes v b m w) h = (v, (λ p. cc, w))

  write_file-done :
      (raw : Config) (s : State) (bytes : Option Text)
      → validate out.json_valid (expanded out raw) ≡ []
      → bytes ≢ none
      → (write_file out true raw bytes s).0 ≡ true
  write_file-done raw s none v ne = absurd (ne refl)
  write_file-done raw s (some bytes) v ne =
      let (idx, built) = build_total out.json_valid (expanded out raw) v in rw built refl

  -- `applyAndCommit` returns true exactly when `Validate` finds no error in the expanded candidate,
  -- the candidate can be marshalled, and the config file can be written.
  pub apply_and_commit_iff :
      (writable : Bool) (raw : Config) (s : State)
      → ((apply_and_commit out writable raw s).0 ≡ true) ↔ (
          (validate out.json_valid (expanded out raw) ≡ [])
          × ((out.marshal raw ≢ none) × (writable ≡ true)))
  unfolding apply_and_commit
  apply_and_commit_iff writable raw s = (
    Applied-needs (apply_and_commit-Applied writable raw s),
    λ (v, (m, w)). rw (v, w) (write_file-done raw s (out.marshal raw) v m),
  )
