-- ===== src/Base/Text.antt =====
-- What the program uses of Go's packages strings, strconv encoding/hex, encoding/base64 and unicode/utf8, on the bytes of a
-- string. Letters are those of ASCII: no other byte has a case here.
pub mod Decimal
pub mod Split
pub mod Hex
pub mod Base64
pub mod Utf8
use Prim.Native.Nat.{ℕ, zero, suc, ◌+◌, ◌-◌, ◌*◌, ◌/◌, ◌%◌, ◌≤◌, ◌<◌}
use mathlib.Core.Bool.{Bool, true, false, ◌&&◌, ◌||◌}
use mathlib.Core.List.{List, [], ◌∷◌, ◌++◌, map}
use mathlib.Core.Option
use mathlib.Core.Option.{Option, none, some}
use mathlib.Core.Path.{◌≡◌, refl}
use native.Mathlib.Omega.{arith}
use ans_sdk_go.Base.Tests.{ltb, leb, if◌then◌else◌}
use ans_sdk_go.Base.Lists.{length, all}
use ans_sdk_go.Base.Equality.{◌==◌, nat_eq, bytes_eq, Bytes}

-- strings.HasPrefix
unfoldable pub has_prefix : Bytes → Bytes → Bool
has_prefix s [] = true
has_prefix [] (p ∷ ps) = false
has_prefix (c ∷ s) (p ∷ ps) = c == p && has_prefix s ps

-- strings.CutPrefix: what follows the prefix, if it is there.
unfoldable pub cut_prefix : Bytes → Bytes → Option Bytes
cut_prefix s [] = some s
cut_prefix [] (p ∷ ps) = none
cut_prefix (c ∷ s) (p ∷ ps) = if c == p then cut_prefix s ps else none

-- strings.TrimPrefix
unfoldable pub trim_prefix : Bytes → Bytes → Bytes
unfolding cut_prefix
trim_prefix s p = elim (cut_prefix s p) [ none ↦ s | some rest ↦ rest ]

-- strings.TrimSuffix with a suffix of one byte
unfoldable pub trim_last : ℕ → Bytes → Bytes
trim_last b [] = []
trim_last b (c ∷ []) = if c == b then [] else c ∷ []
trim_last b (c ∷ d ∷ s) = c ∷ trim_last b (d ∷ s)

-- strings.HasSuffix with a suffix of one byte
unfoldable pub ends_with : ℕ → Bytes → Bool
ends_with b [] = false
ends_with b (c ∷ []) = c == b
ends_with b (c ∷ d ∷ s) = ends_with b (d ∷ s)

-- strings.TrimSpace
abbrev pub is_space : ℕ → Bool
is_space c = c == 32 || leb 9 c && leb c 13

abbrev pub trim_front : Bytes → Bytes
trim_front [] = []
trim_front (c ∷ s) = if is_space c then trim_front s else c ∷ s

-- A byte in front of a text whose trailing space is gone.
abbrev pub unless_space : ℕ → Bytes → Bytes
unless_space c [] = if is_space c then [] else c ∷ []
unless_space c (d ∷ s) = c ∷ d ∷ s

abbrev pub trim_back : Bytes → Bytes
trim_back [] = []
trim_back (c ∷ s) = unless_space c (trim_back s)

unfoldable pub trim_space : Bytes → Bytes
trim_space s = trim_back (trim_front s)

-- strings.ToLower on ASCII; other bytes are left alone.
abbrev pub lower : ℕ → ℕ
lower c = if leb b'A' c && leb c b'Z' then c + 32 else c

abbrev pub to_lower : Bytes → Bytes
to_lower = map lower

-- strings.EqualFold on ASCII; other bytes have to be equal.
unfoldable pub equal_fold : Bytes → Bytes → Bool
equal_fold a b = to_lower a == to_lower b

-- A byte in front of the first part.
abbrev pub onto : ℕ → List Bytes → List Bytes
onto c [] = (c ∷ []) ∷ []
onto c (part ∷ parts) = (c ∷ part) ∷ parts

-- strings.Split with a separator of one byte
unfoldable pub split : ℕ → Bytes → List Bytes
split sep [] = [] ∷ []
split sep (c ∷ s) = let parts = split sep s in if c == sep then [] ∷ parts else onto c parts

-- strings.SplitN with a separator of one byte: at most n parts, the last of which is not split.
unfoldable pub split_n : ℕ → ℕ → Bytes → List Bytes
split_n sep n [] = if n == 0 then [] else [] ∷ []
split_n sep zero (c ∷ s) = []
split_n sep (suc zero) (c ∷ s) = (c ∷ s) ∷ []
split_n sep (suc (suc n)) (c ∷ s) = elim (c == sep) [
  | true ↦ [] ∷ split_n sep (suc n) s
  | false ↦ onto c (split_n sep (suc (suc n)) s)
]

abbrev pub is_digit : ℕ → Bool
is_digit c = leb b'0' c && leb c b'9'

-- The number that decimal digits stand for.
unfoldable pub decimal : ℕ → Bytes → ℕ
decimal acc [] = acc
decimal acc (c ∷ s) = decimal (acc * 10 + (c - b'0')) s

-- strconv.ParseUint(s, 10, 32), `none` for every error
unfoldable pub parse_uint32 : Bytes → Option ℕ
unfolding decimal
parse_uint32 [] = none
parse_uint32 (c ∷ s) =
    if all is_digit (c ∷ s) && ltb (decimal 0 (c ∷ s)) 4294967296
    then some (decimal 0 (c ∷ s))
    else none

-- strconv.ParseUint(s, 10, 64), `none` for every error
unfoldable pub parse_uint64 : Bytes → Option ℕ
parse_uint64 [] = none
parse_uint64 (c ∷ s) =
    if all is_digit (c ∷ s) && ltb (decimal 0 (c ∷ s)) 18446744073709551616
    then some (decimal 0 (c ∷ s))
    else none

-- strings.Cut at the first separator of one byte
unfoldable pub cut : ℕ → Bytes → Option (Bytes × Bytes)
cut sep [] = none
cut sep (c ∷ s) = elim (c == sep) [
  | true ↦ some ([], s)
  | false ↦ Option.map (λ halves. (c ∷ halves.0, halves.1)) (cut sep s)
]

-- The verb %d. Each round takes off a digit, so a number has fewer digits than rounds here.
unfoldable pub digits_in : ℕ → ℕ → Bytes
digits_in zero n = (n + b'0') ∷ []
digits_in (suc rounds) n = elim (ltb n 10) [
  | true ↦ (n + b'0') ∷ []
  | false ↦ digits_in rounds (n / 10) ++ (n % 10 + b'0') ∷ []
]

unfoldable pub print_decimal : ℕ → Bytes
unfolding digits_in
print_decimal n = digits_in n n
