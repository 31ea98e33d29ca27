-- ===== src/Pipeline/Errors.antt =====
-- internal/pipeline/stream.go: the reason text of a failed attempt.
use simple_api.Base.{
  ℕ, zero, suc, ◌+◌, ◌/◌, ◌%◌, not, ◌&&◌, Option, none, some, List, [], ◌∷◌, ◌++◌, ltb,
  if◌then◌else◌, length, take, is_empty, Text, codes,
}
use simple_api.Base.Int64.{Int64, positive}
use simple_api.Base.Spaces.{trim_space}
use simple_api.Json.{is_kind, Json, is_string}

abbrev pub digit : ℕ → ℕ
digit n = 48 + n % 10

-- The decimal digits of a number below 10 ^ `digits`, in front of a text: `%d`.
unfoldable pub print_digits : (digits : ℕ) → ℕ → Text → Text
print_digits zero n s = s
print_digits (suc digits) n s =
    let rest = print_digits digits (n / 10) (digit n ∷ s) in if ltb n 10 then digit n ∷ s else rest

-- A number below 2 ^ 64 has at most 20 digits.
unfoldable pub print_int : ℕ → Text
unfolding print_digits
print_int n = print_digits 20 n []

-- `truncateMessage`.
unfoldable pub truncate_message : Text → Text
unfolding trim_space
truncate_message s =
    let t = trim_space s in if ltb 500 (length t) then take 500 t ++ codes "..." else t

abbrev pub error_paths : List Text
error_paths =
    codes "error.message" ∷ codes "message" ∷ codes "error" ∷ codes "detail" ∷ codes "msg" ∷ []

module _ (j : Json) where
  -- The first of the paths at which a string stands.
  unfoldable pub first_message : Text → List Text → Option Text
  first_message body [] = none
  first_message body (p ∷ ps) =
      let rest = first_message body ps in
      if j.exists (j.get body p) && is_kind (j.kind (j.get body p)) is_string
      then some (j.string (j.get body p))
      else rest

  abbrev pub json_message : Text → Option Text
  unfolding first_message
  json_message body =
      if not (is_empty body) && j.valid body then first_message body error_paths else none

  abbrev pub body_or_status : Int64 → Text → Text
  unfolding truncate_message print_int trim_space
  body_or_status status body =
      if not (is_empty (trim_space body))
      then truncate_message (trim_space body)
      else if positive status
      then codes "upstream returned HTTP " ++ print_int status
      else codes "upstream call failed"

  abbrev pub reason_of : Option Text → Int64 → Text → Text
  unfolding truncate_message print_int trim_space
  reason_of none status body = body_or_status status body
  reason_of (some message) status body = truncate_message message

  -- `extractErrorMessage`.
  unfoldable pub extract_error_message : Int64 → Text → Text
  unfolding truncate_message print_int trim_space first_message
  extract_error_message status body = reason_of (json_message body) status body
