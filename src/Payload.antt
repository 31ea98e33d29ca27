-- ===== src/Payload.antt =====
-- internal/payload/match.go and engine.go: the configured rules for outbound bodies.
use simple_api.Base.{
  Bool, true, false, not, ◌&&◌, ◌||◌, List, [], ◌∷◌, ◌++◌, if◌then◌else◌, ◌==◌, nat_eq, bool_eq,
  pair_eq, is_empty, any, all, Text, text_eq, text_lt,
}
use simple_api.Base.Dict.{Map}
use simple_api.Base.Sort.{sort}
use simple_api.Config.{
  Value, PayloadModelRule, PayloadRule, PayloadFilterRule, PayloadConfig, str, bool, int, other,
}
use simple_api.Glob.{glob_match}
use simple_api.Json.{is_kind, Json, or_keep, is_null, is_false, is_number, is_string, is_true}

-- `header` is `http.Header.Get`, of the client's request.
pub record MatchContext : Type 0 where
  pub internal_id : Text
  pub alias_a : Text
  pub upstream_model : Text
  pub protocol : Text
  pub from_protocol : Text
  pub header : Text → Text

module _ (j : Json) where
  -- `gjsonEquals`.
  unfoldable pub node_equals : j.Node → Value → Bool
  node_equals n (str v) = is_kind (j.kind n) is_string && j.string n == v
  node_equals n (bool v) = is_kind (j.kind n) is_true && v || is_kind (j.kind n) is_false && not v
  node_equals n (int v) = is_kind (j.kind n) is_number && j.int_of n == v
  node_equals n (other v) = is_kind (j.kind n) is_number && j.float_equals n (other v)

  -- The path holds a value that is not null.
  abbrev pub present : Text → Text → Bool
  present body path = j.exists (j.get body path) && not (is_kind (j.kind (j.get body path)) is_null)

  abbrev pub entry_equals : Text → Text × Value → Bool
  entry_equals body (path, val) = node_equals (j.get body path) val

  -- `ruleMatches`: the eight predicates.
  unfoldable pub rule_matches : PayloadModelRule → MatchContext → Text → Bool
  unfolding node_equals
  rule_matches r mc body =
      (is_empty r.name
        || (glob_match r.name mc.internal_id
            || (glob_match r.name mc.alias_a || glob_match r.name mc.upstream_model)))
      && ((is_empty r.protocol || r.protocol == mc.protocol)
          && ((is_empty r.from_protocol || r.from_protocol == mc.from_protocol)
              && (all (λ h. glob_match h.1 (mc.header h.0)) r.headers
                  && (all (λ entry. all (entry_equals body) entry) r.match_values
                      && (all (λ entry. all (λ e. not (entry_equals body e)) entry) r.not_match
                          && (all (present body) r.exist
                              && all (λ path. not (present body path)) r.not_exist))))))

  -- `anyModelMatches`.
  unfoldable pub any_model_matches : List PayloadModelRule → MatchContext → Text → Bool
  unfolding rule_matches
  any_model_matches rules mc body = any (λ r. rule_matches r mc body) rules

  abbrev pub raw_text : Value → Text
  raw_text (str s) = s
  raw_text _ = []

  -- `writeParam`.
  unfoldable pub write_param : Text → Text → Value → Bool → Text
  write_param body path val raw =
      if raw
      then or_keep body (j.set_raw body path (raw_text val))
      else or_keep body (j.set_value body path val)

  -- The loop over the parameters of a default rule, in the order in which the map is read.
  unfoldable pub default_params : Map Text Value → Bool → Text → Text
  unfolding write_param
  default_params [] raw body = body
  default_params ((path, val) ∷ params) raw body =
      default_params params raw
        (if j.exists (j.get body path) then body else write_param body path val raw)

  -- `applyDefault`.
  unfoldable pub apply_default : List PayloadRule → MatchContext → Bool → Text → Text
  unfolding default_params
  apply_default [] mc raw body = body
  apply_default (r ∷ rules) mc raw body =
      apply_default rules mc raw (
        if not (any_model_matches r.models mc body) then body else default_params r.params raw body)

  unfoldable pub override_params : Map Text Value → Bool → Text → Text
  unfolding write_param
  override_params [] raw body = body
  override_params ((path, val) ∷ params) raw body =
      override_params params raw (write_param body path val raw)

  -- `applyOverride`.
  unfoldable pub apply_override : List PayloadRule → MatchContext → Bool → Text → Text
  unfolding override_params
  apply_override [] mc raw body = body
  apply_override (r ∷ rules) mc raw body =
      apply_override rules mc raw (
        if not (any_model_matches r.models mc body)
        then body
        else override_params r.params raw body)

  -- The paths of the matching filter rules.
  unfoldable pub filter_paths : List PayloadFilterRule → MatchContext → Text → List Text
  filter_paths [] mc body = []
  filter_paths (r ∷ rules) mc body =
      (if not (any_model_matches r.models mc body) then [] else r.params)
      ++ filter_paths rules mc body

  unfoldable pub delete_all : List Text → Text → Text
  delete_all [] body = body
  delete_all (p ∷ paths) body = delete_all paths (or_keep body (j.delete_path body p))

  -- `applyFilter`: the paths are deleted from the greatest to the least.
  unfoldable pub apply_filter : List PayloadFilterRule → MatchContext → Text → Text
  unfolding filter_paths delete_all
  apply_filter rules mc body =
      delete_all (sort (λ a b. text_lt b a) (filter_paths rules mc body)) body

  -- `Apply`, with a config that is not nil: the five phases.
  unfoldable pub apply : PayloadConfig → MatchContext → Text → Text
  unfolding apply_default apply_override apply_filter
  apply cfg mc body = apply_filter cfg.filter mc (
      apply_override cfg.override_raw mc true (
        apply_override cfg.override mc false
          (apply_default cfg.default_raw mc true (apply_default cfg.default mc false body))))
