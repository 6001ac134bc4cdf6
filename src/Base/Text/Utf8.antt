-- ===== src/Base/Text/Utf8.antt =====
-- The package unicode/utf8 on the bytes of a string.
use Prim.Native.Nat.{ℕ}
use mathlib.Core.Bool.{Bool, ◌&&◌}
use mathlib.Core.List.{[], ◌∷◌}
use ans_sdk_go.Base.Tests.{leb, ltb, if◌then◌else◌}
use ans_sdk_go.Base.Equality.{Bytes, ◌==◌, nat_eq}

abbrev pub is_between : ℕ → ℕ → ℕ → Bool
is_between low high c = leb low c && leb c high

abbrev pub is_continuation : ℕ → Bool
is_continuation = is_between 128 191

-- The second byte that may follow a first byte of a rune of three or four bytes.
abbrev pub second_of_three : ℕ → ℕ → Bool
second_of_three c =
    if c == 224
    then is_between 160 191
    else if c == 237
    then is_between 128 159
    else is_continuation

abbrev pub second_of_four : ℕ → ℕ → Bool
second_of_four c =
    if c == 240
    then is_between 144 191
    else if c == 244
    then is_between 128 143
    else is_continuation

abbrev pub two_bytes : Bytes → ℕ
two_bytes (c ∷ d ∷ s) = if is_continuation d then 2 else 0
two_bytes s = 0

abbrev pub three_bytes : Bytes → ℕ
three_bytes (c ∷ d ∷ e ∷ s) = if second_of_three c d && is_continuation e then 3 else 0
three_bytes s = 0

abbrev pub four_bytes : Bytes → ℕ
four_bytes (c ∷ d ∷ e ∷ f ∷ s) =
    if second_of_four c d && is_continuation e && is_continuation f then 4 else 0
four_bytes s = 0

-- utf8.DecodeRune: the width of the first rune, zero where it returns RuneError and width one.
unfoldable pub rune_width : Bytes → ℕ
rune_width [] = 0
rune_width (c ∷ s) =
    if ltb c 128
    then 1
    else if is_between 194 223 c
    then two_bytes (c ∷ s)
    else if is_between 224 239 c
    then three_bytes (c ∷ s)
    else if is_between 240 244 c
    then four_bytes (c ∷ s)
    else 0
