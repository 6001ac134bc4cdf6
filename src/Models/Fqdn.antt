-- ===== src/Models/Fqdn.antt =====
-- models/fqdn.go. A rune outside ASCII is refused at each of its bytes, so the loop over the runes
-- of a label is a loop over its bytes.
pub mod Canonical
use ans_sdk_go.Base.{
  ℕ, ◌++◌, ◌==◌, bytes_eq, nat_eq, Bool, true, false, Option, none, some, List, [], ◌∷◌, leb, ltb,
  not, ◌&&◌, ◌||◌, if◌then◌else◌, length, all, Bytes, codes,
}
use ans_sdk_go.Base.Text.{has_prefix, ends_with, trim_last, to_lower, split, print_decimal}

abbrev pub max_label_length : ℕ
max_label_length = 63

pub record Fqdn : Type 0 where
  pub value : Bytes

pub data FqdnError : Type 0 where
  empty_domain empty_label label_too_long : FqdnError
  invalid_character : Bytes → FqdnError
  hyphen_at_end : FqdnError

pub data Parsed : Type 0 where
  ok : Fqdn → Parsed
  err : FqdnError → Parsed

abbrev pub is_valid_label_char : ℕ → Bool
is_valid_label_char c =
    leb b'a' c && leb c b'z' || leb b'A' c && leb c b'Z' || leb b'0' c && leb c b'9' || c == b'-'

-- The body of the loop over the labels.
unfoldable pub check_label : Bytes → Option FqdnError
check_label label =
    if label == []
    then some empty_label
    else if ltb max_label_length (length label)
    then some label_too_long
    else if not (all is_valid_label_char label)
    then some (invalid_character label)
    else if has_prefix label (b'-' ∷ []) || ends_with b'-' label
    then some hyphen_at_end
    else none

unfoldable pub check_labels : List Bytes → Option FqdnError
unfolding check_label
check_labels [] = none
check_labels (label ∷ labels) = elim (check_label label) [
  | some e ↦ some e
  | none ↦ check_labels labels
]

unfoldable pub new_fqdn : Bytes → Parsed
unfolding check_labels
new_fqdn domain =
    if domain == []
    then err empty_domain
    else let trimmed = trim_last b'.' domain in
      elim (check_labels (split b'.' trimmed)) [
        | some e ↦ err e
        | none ↦ ok (record { value = to_lower trimmed })
      ]

unfoldable pub ans_badge_name : Fqdn → Bytes
ans_badge_name f = codes "_ans-badge." ++ f.value

unfoldable pub ra_badge_name : Fqdn → Bytes
ra_badge_name f = codes "_ra-badge." ++ f.value

unfoldable pub tlsa_name : Fqdn → ℕ → Bytes
tlsa_name f port = b'_' ∷ (print_decimal port ++ codes "._tcp." ++ f.value)

unfoldable pub is_zero : Fqdn → Bool
is_zero f = f.value == []
