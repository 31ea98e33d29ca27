-- ===== src/Pipeline/Reasons.antt =====
-- The reason text of a failed attempt is short, and its decimal number is right.
use simple_api.Base.Int64.{Int64, modulus, positive}
use simple_api.Base.Spaces.{trim_space}
use simple_api.Json.{Json}
use native.Mathlib.Numerals.{unary_clauses}
use simple_api.Base.{
  ℕ, zero, suc, ◌+◌, ◌-◌, ◌*◌, ◌/◌, ◌^◌, ◌≤◌, ◌<◌, ◌≡◌, ap, ◌∙◌, inl, inr, true, false, Option,
  none, some, [], ◌∷◌, arith, ltb, Bool-cases, length, take, is_empty, length-append, Text, codes,
}
use simple_api.Pipeline.Errors.{
  digit, print_digits, print_int, truncate_message, json_message, body_or_status, reason_of,
  extract_error_message,
}

-- The number that decimal digits stand for, behind a number.
pub read_from : ℕ → Text → ℕ
read_from n [] = n
read_from n (c ∷ s) = read_from (n * 10 + (c - 48)) s

last_digit : (n : ℕ) → ltb n 10 ≡ true → 0 * 10 + (digit n - 48) ≡ n
last_digit n e = ground arith

next_digit : (n : ℕ) → n / 10 * 10 + (digit n - 48) ≡ n
next_digit n = omega arith

div_lt : (n m : ℕ) → n < m * 10 → n / 10 < m
div_lt n m h = omega arith

-- Enough digits print the number in full.
read_from-print_digits :
    (digits n : ℕ) (s : Text)
    → n < 10 ^ digits
    → read_from 0 (print_digits digits n s) ≡ read_from n s
unfolding read_from print_digits
read_from-print_digits zero n s h = ap (λ m. read_from m s) (omega arith)
read_from-print_digits (suc digits) n s h = elim (Bool-cases (ltb n 10)) [
  | inl e ↦ rw e (ap (λ m. read_from m s) (last_digit n e))
  | inr e ↦ rw e (
      read_from-print_digits digits (n / 10) (digit n ∷ s)
        (div_lt n (10 ^ digits) (simp unary_clauses at h))
      ∙ ap (λ m. read_from m s) (next_digit n))
]

length-print_digits :
    (digits n : ℕ) (s : Text) → length (print_digits digits n s) ≤ digits + length s
unfolding print_digits
length-print_digits zero n s = omega arith
length-print_digits (suc digits) n s =
    ground (arith, length-print_digits digits (n / 10) (digit n ∷ s))

length-take_le : (n : ℕ) (s : Text) → length (take n s) ≤ n
length-take_le zero s = omega arith
length-take_le (suc n) [] = omega arith
length-take_le (suc n) (c ∷ s) = omega (arith, length-take_le n s)

not_longer : (n : ℕ) → ltb 500 n ≡ false → n ≤ 503
not_longer n e = ground arith

length-truncate_message : (s : Text) → length (truncate_message s) ≤ 503
unfolding truncate_message
length-truncate_message s = elim (Bool-cases (ltb 500 (length (trim_space s)))) [
  | inl e ↦ rw e (
      omega (
        arith,
        length-append (take 500 (trim_space s)) (codes "..."),
        length-take_le 500 (trim_space s),
      ))
  | inr e ↦ rw e (not_longer (length (trim_space s)) e)
]

-- Twenty digits are enough for every `int`.
pub read_from-print_int : (n : ℕ) → n < modulus → read_from 0 (print_int n) ≡ n
unfolding print_int read_from
read_from-print_int n h = read_from-print_digits 20 n [] (omega arith)

module _ (j : Json) where
  length-body_or_status :
      (status : Int64) (body : Text) → length (body_or_status j status body) ≤ 503
  unfolding print_int truncate_message trim_space
  length-body_or_status status body = elim (Bool-cases (is_empty (trim_space body))) [
    | inl e ↦ elim (Bool-cases (positive status)) [
      | inl p ↦
          rw (e, p)
            (omega (
              arith,
              length-append (codes "upstream returned HTTP ") (print_int status),
              length-print_digits 20 status [],
            ))
      | inr p ↦ rw (e, p) (omega arith)
    ]
    | inr e ↦ rw e (length-truncate_message (trim_space body))
  ]

  length-reason_of :
      (message : Option Text) (status : Int64) (body : Text)
      → length (reason_of j message status body) ≤ 503
  unfolding truncate_message print_int trim_space
  length-reason_of none status body = length-body_or_status status body
  length-reason_of (some message) status body = length-truncate_message message

  -- The reason text of an upstream error has at most 503 bytes, whatever the upstream's body is.
  pub length-extract_error_message :
      (status : Int64) (body : Text) → length (extract_error_message j status body) ≤ 503
  unfolding extract_error_message
  length-extract_error_message status body = length-reason_of (json_message j body) status body
