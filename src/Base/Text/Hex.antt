-- ===== src/Base/Text/Hex.antt =====
-- The package encoding/hex on the bytes of a string.
use ans_sdk_go.Base.Tests.{ltb, leb, if◌then◌else◌}
use Prim.Native.Nat.{ℕ, ◌+◌, ◌-◌, ◌*◌, ◌/◌, ◌%◌, ◌<◌}
use mathlib.Core.Bool.{Bool, true, ◌&&◌}
use mathlib.Core.List.{[], ◌∷◌}
use mathlib.Core.Option.{Option, none, some}
use mathlib.Core.Path.{◌≡◌, refl}
use native.Mathlib.Omega.{arith}
use ans_sdk_go.Base.Equality.{Bytes}
use ans_sdk_go.Base.Lists.{all}

unfoldable pub hex_digit : ℕ → ℕ
hex_digit n = if ltb n 10 then b'0' + n else b'a' + (n - 10)

-- hex.EncodeToString
unfoldable pub encode_hex : Bytes → Bytes
unfolding hex_digit
encode_hex [] = []
encode_hex (b ∷ bs) = hex_digit (b / 16) ∷ hex_digit (b % 16) ∷ encode_hex bs

unfoldable pub hex_value : ℕ → Option ℕ
hex_value c =
    if leb b'0' c && leb c b'9'
    then some (c - b'0')
    else if leb b'a' c && leb c b'f'
    then some (c - b'a' + 10)
    else if leb b'A' c && leb c b'F'
    then some (c - b'A' + 10)
    else none

abbrev pub byte_onto : Option ℕ → Option ℕ → Option Bytes → Option Bytes
byte_onto (some h) (some l) (some bs) = some ((h * 16 + l) ∷ bs)
byte_onto h l bs = none

-- hex.DecodeString, `none` for every error
unfoldable pub decode_hex : Bytes → Option Bytes
unfolding hex_value
decode_hex [] = some []
decode_hex (c ∷ []) = none
decode_hex (c ∷ d ∷ s) = byte_onto (hex_value c) (hex_value d) (decode_hex s)

-- Every element is a byte.
abbrev pub are_bytes : Bytes → Bool
are_bytes = all (λ b. ltb b 256)

hex_value-hex_digit : (n : ℕ) → n < 16 → hex_value (hex_digit n) ≡ some n
unfolding hex_value hex_digit
hex_value-hex_digit n h = ground arith

pub decode_hex-encode_hex :
    (bs : Bytes) → are_bytes bs ≡ true → decode_hex (encode_hex bs) ≡ some bs
unfolding decode_hex encode_hex
decode_hex-encode_hex [] h = refl
decode_hex-encode_hex (b ∷ bs) h = rw (hex_value-hex_digit (b / 16) (ground arith)) (
    rw (hex_value-hex_digit (b % 16) (ground arith))
      (rw (decode_hex-encode_hex bs (ground arith)) (ground arith)))
