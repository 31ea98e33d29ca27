-- ===== src/Config/Env.antt =====
-- internal/config/env.go, and `Expand` of load.go. `getenv` is `os.LookupEnv`.
use simple_api.Base.{
  ℕ, zero, suc, ◌+◌, Option, none, some, [], ◌∷◌, ◌++◌, map, if◌then◌else◌, take, drop, is_empty,
  Text, codes, has_prefix, index, index_byte,
}
use simple_api.Config.{Provider, ClientApiKey, Config}

-- The two parts of "name:-default", where it has a default.
abbrev pub name_and_default : Text → Option ℕ → Text × Option Text
name_and_default inner none = (inner, none)
name_and_default inner (some i) = (take i inner, some (drop (i + 2) inner))

abbrev pub or_default : Option Text → Option Text → Text
or_default none none = []
or_default none (some def) = def
or_default (some val) none = val
or_default (some val) (some def) = if is_empty val then def else val

-- Where the placeholder that the text starts with ends: the number of bytes between its braces.
abbrev pub placeholder : Text → Option ℕ
placeholder s = if has_prefix s (codes "${") then index_byte (drop 2 s) b'}' else none

module _ (getenv : Text → Option Text) where
  -- The function that is called on each match, on what stands between the braces.
  unfoldable pub value_of : Text → Text
  value_of inner =
      let (name, def) = name_and_default inner (index inner (codes ":-")) in
      or_default (getenv name) def

  -- The text behind the first `skip` bytes, which a match has consumed.
  unfoldable pub expand_from : ℕ → Text → Text
  unfolding value_of
  expand_from skip [] = []
  expand_from (suc skip) (c ∷ s) = expand_from skip s
  expand_from zero (c ∷ s) = elim (placeholder (c ∷ s)) [
    | none ↦ c ∷ expand_from 0 s
    | some n ↦ value_of (take n (drop 1 s)) ++ expand_from (n + 2) s
  ]

  -- `ExpandEnv`.
  unfoldable pub expand_env : Text → Text
  unfolding expand_from
  expand_env s = expand_from 0 s

  abbrev pub expand_provider : Provider → Provider
  expand_provider p = record p {
    key = expand_env p.key;
    headers = map (λ h. (h.0, expand_env h.1)) p.headers;
  }

  abbrev pub expand_key : ClientApiKey → ClientApiKey
  expand_key k = record k { key = expand_env k.key }

  -- `Expand`.
  unfoldable pub expand : Config → Config
  unfolding expand_env
  expand cfg = record cfg {
    providers = map expand_provider cfg.providers;
    api_keys = map expand_key cfg.api_keys;
    management = record cfg.management { admin_key = expand_env cfg.management.admin_key };
    archive_dir = expand_env cfg.archive_dir;
  }
