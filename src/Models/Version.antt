-- ===== src/Models/Version.antt =====
-- models/version.go. A component is a number below 2^32.
pub mod RoundTrip
pub mod Order
use ans_sdk_go.Base.{
  ℕ, ◌++◌, ◌==◌, nat_eq, bytes_eq, Bool, true, false, Option, none, some, List, [], ◌∷◌, ltb, not,
  ◌&&◌, if◌then◌else◌, length, Bytes,
}
use ans_sdk_go.Base.Text.{trim_prefix, split, parse_uint32, print_decimal}

pub record Version : Type 0 where
  pub major : ℕ
  pub minor : ℕ
  pub patch : ℕ

pub data VersionError : Type 0 where
  empty_version : VersionError
  wrong_parts : ℕ → VersionError
  invalid_major invalid_minor invalid_patch : Bytes → VersionError

pub data Parsed : Type 0 where
  ok : Version → Parsed
  err : VersionError → Parsed

-- The conversions, in the order of the source.
unfoldable pub parse_parts : Bytes → Bytes → Bytes → Parsed
parse_parts a b c = elim (parse_uint32 a) [
  | none ↦ err (invalid_major a)
  | some major ↦ elim (parse_uint32 b) [
    | none ↦ err (invalid_minor b)
    | some minor ↦ elim (parse_uint32 c) [
      | none ↦ err (invalid_patch c)
      | some patch ↦ ok (record { major = major; minor = minor; patch = patch })
    ]
  ]
]

unfoldable pub parse_split : List Bytes → Parsed
unfolding parse_parts
parse_split (a ∷ b ∷ c ∷ []) = parse_parts a b c
parse_split parts = err (wrong_parts (length parts))

unfoldable pub parse_version : Bytes → Parsed
unfolding parse_split
parse_version s =
    if s == [] then err empty_version else parse_split (split b'.' (trim_prefix s (b'v' ∷ [])))

unfoldable pub version_string : Version → Bytes
version_string v =
    b'v' ∷ (print_decimal v.major ++ b'.' ∷ (print_decimal v.minor ++ b'.' ∷ print_decimal v.patch))

-- The results -1, 0 and 1 of `Compare`.
pub data Comparison : Type 0 where
  less same greater : Comparison

unfoldable pub compare_numbers : ℕ → ℕ → Comparison → Comparison
compare_numbers a b tie = if not (a == b) then (if ltb a b then less else greater) else tie

unfoldable pub compare : Version → Version → Comparison
unfolding compare_numbers
compare v other =
    compare_numbers v.major other.major
      (compare_numbers v.minor other.minor (compare_numbers v.patch other.patch same))

unfoldable pub is_zero : Version → Bool
is_zero v = v.major == 0 && v.minor == 0 && v.patch == 0

unfoldable pub equal : Version → Version → Bool
unfolding compare
equal v other = elim (compare v other) [ less ↦ false | same ↦ true | greater ↦ false ]

unfoldable pub is_less : Version → Version → Bool
unfolding compare
is_less v other = elim (compare v other) [ less ↦ true | same ↦ false | greater ↦ false ]
