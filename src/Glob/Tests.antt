-- ===== src/Glob/Tests.antt =====
-- Concrete patterns.
use simple_api.Base.{
  ◌≡◌, refl, ◌≢◌, ◌↔◌, true, [], codes, has_prefix, has_suffix, index, contains_byte, split,
}
use simple_api.Glob.{glob_match}
use simple_api.Glob.Correct.{glob_match_iff}
use simple_api.Glob.Parts.{Matches}

glob_match_iff_example :
    (glob_match (codes "gpt-*-mini*") (codes "gpt-4o-mini") ≡ true)
    ↔ ((codes "gpt-*-mini*" ≢ []) × Matches (codes "gpt-*-mini*") (codes "gpt-4o-mini"))
glob_match_iff_example = glob_match_iff (codes "gpt-*-mini*") (codes "gpt-4o-mini")

leftmost_then_suffix : glob_match (codes "*ab*b") (codes "xabab") ≡ true
unfolding glob_match contains_byte split has_prefix has_suffix index
leftmost_then_suffix = refl
