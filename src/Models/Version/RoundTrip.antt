-- ===== src/Models/Version/RoundTrip.antt =====
-- `ParseVersion` reads what `String` prints.
use ans_sdk_go.Base.{ℕ, ◌<◌, ◌≡◌, refl, true, [], ◌∷◌, ◌++◌, arith, all, Bytes, nat_eq, bytes_beq}
use ans_sdk_go.Base.Text.{split, print_decimal, is_digit, trim_prefix}
use ans_sdk_go.Base.Text.Decimal.{all-print_decimal, parse_uint32-print_decimal}
use ans_sdk_go.Base.Text.Split.{lacks, split-lacks, split-append}
use ans_sdk_go.Models.Version.{Version, ok, parse_parts, parse_split, parse_version, version_string}

digits-lack_dot : (s : Bytes) → all is_digit s ≡ true → lacks b'.' s ≡ true
digits-lack_dot [] h = refl
digits-lack_dot (c ∷ s) h = ground (arith, digits-lack_dot s)

pub print_decimal-lacks_dot : (n : ℕ) → lacks b'.' (print_decimal n) ≡ true
print_decimal-lacks_dot n = digits-lack_dot (print_decimal n) (all-print_decimal n)

split_three :
    (a b c : ℕ)
    → split b'.' (print_decimal a ++ b'.' ∷ (print_decimal b ++ b'.' ∷ print_decimal c))
      ≡ print_decimal a ∷ print_decimal b ∷ print_decimal c ∷ []
split_three a b c = rw (
  split-append b'.' (print_decimal a) _ (print_decimal-lacks_dot a),
  split-append b'.' (print_decimal b) _ (print_decimal-lacks_dot b),
  split-lacks b'.' (print_decimal c) (print_decimal-lacks_dot c),
)

-- A version whose components are 32-bit numbers is what `ParseVersion` reads from its string.
pub parse_version-version_string :
    (v : Version)
    → v.major < 4294967296
    → v.minor < 4294967296
    → v.patch < 4294967296
    → parse_version (version_string v) ≡ ok v
unfolding parse_version version_string trim_prefix bytes_beq
parse_version-version_string v a b c = rw split_three (
    rw (parse_uint32-print_decimal v.major a, parse_split, parse_parts)
      (rw (parse_uint32-print_decimal v.minor b, parse_uint32-print_decimal v.patch c)))
