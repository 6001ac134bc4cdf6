-- ===== src/Base/Text/Base64.antt =====
-- The package encoding/base64 on the bytes of a string: base64.StdEncoding, with padding, and
-- base64.RawURLEncoding, without. As in
-- Go, the decoder skips line ends and does not look at the bits that a last group leaves over.
pub mod RoundTrip
pub mod UrlRoundTrip
use Prim.Native.Nat.{ℕ, ◌+◌, ◌-◌, ◌*◌, ◌/◌, ◌%◌}
use mathlib.Core.Bool.{Bool, ◌&&◌, ◌||◌}
use mathlib.Core.List.{[], ◌∷◌}
use mathlib.Core.Option.{Option, none, some}
use ans_sdk_go.Base.Tests.{ltb, leb, if◌then◌else◌}
use ans_sdk_go.Base.Equality.{Bytes, ◌==◌, nat_eq}

-- The alphabet.
unfoldable pub base64_digit : ℕ → ℕ
base64_digit n =
    if ltb n 26
    then b'A' + n
    else if ltb n 52
    then b'a' + (n - 26)
    else if ltb n 62
    then b'0' + (n - 52)
    else if n == 62
    then b'+'
    else b'/'

unfoldable pub base64_value : ℕ → Option ℕ
base64_value c =
    if leb b'A' c && leb c b'Z'
    then some (c - b'A')
    else if leb b'a' c && leb c b'z'
    then some (c - b'a' + 26)
    else if leb b'0' c && leb c b'9'
    then some (c - b'0' + 52)
    else if c == b'+'
    then some 62
    else if c == b'/'
    then some 63
    else none

-- base64.StdEncoding.EncodeToString
unfoldable pub encode_base64 : Bytes → Bytes
unfolding base64_digit
encode_base64 [] = []
encode_base64 (a ∷ []) = base64_digit (a / 4) ∷ base64_digit (a % 4 * 16) ∷ b'=' ∷ b'=' ∷ []
encode_base64 (a ∷ b ∷ []) =
    base64_digit (a / 4)
    ∷ base64_digit (a % 4 * 16 + b / 16)
    ∷ base64_digit (b % 16 * 4)
    ∷ b'='
    ∷ []
encode_base64 (a ∷ b ∷ c ∷ rest) =
    base64_digit (a / 4)
    ∷ base64_digit (a % 4 * 16 + b / 16)
    ∷ base64_digit (b % 16 * 4 + c / 64)
    ∷ base64_digit (c % 64)
    ∷ encode_base64 rest

-- The bytes of a group without padding, in front of those of the groups after it.
abbrev pub full_group : Option ℕ → Option ℕ → Option ℕ → Option ℕ → Option Bytes → Option Bytes
full_group (some w) (some x) (some y) (some z) (some rest) =
    some ((w * 4 + x / 16) ∷ (x % 16 * 16 + y / 4) ∷ (y % 4 * 64 + z) ∷ rest)
full_group w x y z rest = none

abbrev pub group_of_two : Option ℕ → Option ℕ → Option ℕ → Option Bytes
group_of_two (some w) (some x) (some y) = some ((w * 4 + x / 16) ∷ (x % 16 * 16 + y / 4) ∷ [])
group_of_two w x y = none

abbrev pub group_of_one : Option ℕ → Option ℕ → Option Bytes
group_of_one (some w) (some x) = some ((w * 4 + x / 16) ∷ [])
group_of_one w x = none

-- A last group, which may be padded.
abbrev pub last_group : ℕ → ℕ → ℕ → ℕ → Option Bytes
last_group w x y z =
    if z == b'='
    then if y == b'='
      then group_of_one (base64_value w) (base64_value x)
      else group_of_two (base64_value w) (base64_value x) (base64_value y)
    else full_group (base64_value w) (base64_value x) (base64_value y) (base64_value z) (some [])

abbrev pub decode_groups : Bytes → Option Bytes
decode_groups [] = some []
decode_groups (w ∷ x ∷ y ∷ z ∷ []) = last_group w x y z
decode_groups (w ∷ x ∷ y ∷ z ∷ c ∷ rest) =
    full_group (base64_value w) (base64_value x) (base64_value y) (base64_value z)
      (decode_groups (c ∷ rest))
decode_groups s = none

-- The groups of base64.RawURLEncoding, whose last may be short: its alphabet has - and _.
unfoldable pub url_value : ℕ → Option ℕ
url_value c =
    if c == b'-'
    then some 62
    else if c == b'_'
    then some 63
    else if c == b'+' || c == b'/'
    then none
    else base64_value c

unfoldable pub url_digit : ℕ → ℕ
url_digit n = if n == 62 then b'-' else if n == 63 then b'_' else base64_digit n

abbrev pub decode_url_groups : Bytes → Option Bytes
decode_url_groups [] = some []
decode_url_groups (w ∷ []) = none
decode_url_groups (w ∷ x ∷ []) = group_of_one (url_value w) (url_value x)
decode_url_groups (w ∷ x ∷ y ∷ []) = group_of_two (url_value w) (url_value x) (url_value y)
decode_url_groups (w ∷ x ∷ y ∷ z ∷ rest) =
    full_group (url_value w) (url_value x) (url_value y) (url_value z) (decode_url_groups rest)

abbrev pub is_line_end : ℕ → Bool
is_line_end c = c == 10 || c == 13

abbrev pub without_line_ends : Bytes → Bytes
without_line_ends [] = []
without_line_ends (c ∷ s) =
    let rest = without_line_ends s in if is_line_end c then rest else c ∷ rest

-- base64.StdEncoding.DecodeString, `none` for every error
unfoldable pub decode_base64 : Bytes → Option Bytes
unfolding base64_value
decode_base64 s = decode_groups (without_line_ends s)

-- base64.RawURLEncoding.DecodeString, `none` for every error
unfoldable pub decode_base64url : Bytes → Option Bytes
decode_base64url s = decode_url_groups (without_line_ends s)

-- base64.RawURLEncoding.EncodeToString
unfoldable pub encode_base64url : Bytes → Bytes
encode_base64url [] = []
encode_base64url (a ∷ []) = url_digit (a / 4) ∷ url_digit (a % 4 * 16) ∷ []
encode_base64url (a ∷ b ∷ []) =
    url_digit (a / 4) ∷ url_digit (a % 4 * 16 + b / 16) ∷ url_digit (b % 16 * 4) ∷ []
encode_base64url (a ∷ b ∷ c ∷ rest) =
    url_digit (a / 4)
    ∷ url_digit (a % 4 * 16 + b / 16)
    ∷ url_digit (b % 16 * 4 + c / 64)
    ∷ url_digit (c % 64)
    ∷ encode_base64url rest
