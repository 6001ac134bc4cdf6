-- ===== src/Base/Text/Base64/RoundTrip.antt =====
-- Decoding what the base64 encoder writes.
use Prim.Native.Nat.{ℕ, ◌+◌, ◌*◌, ◌/◌, ◌%◌, ◌<◌}
use mathlib.Core.Bool.{Bool, true, false, not}
use mathlib.Core.List.{[], ◌∷◌}
use mathlib.Core.Option.{some}
use mathlib.Core.Path.{◌≡◌, refl}
use native.Mathlib.Omega.{arith}
use ans_sdk_go.Base.Equality.{Bytes, ◌==◌, nat_eq}
use ans_sdk_go.Base.Lists.{all}
use ans_sdk_go.Base.Text.Hex.{are_bytes}
use ans_sdk_go.Base.Text.Base64.{
  base64_digit, base64_value, encode_base64, decode_base64, decode_groups, full_group, is_line_end,
  without_line_ends,
}

value-digit : (n : ℕ) → n < 64 → base64_value (base64_digit n) ≡ some n
unfolding base64_value base64_digit
value-digit n h = ground arith

digit_no_pad : (n : ℕ) → n < 64 → (base64_digit n == b'=') ≡ false
unfolding base64_digit
digit_no_pad n h = ground arith

digit_no_line_end : (n : ℕ) → n < 64 → is_line_end (base64_digit n) ≡ false
unfolding base64_digit
digit_no_line_end n h = ground arith

-- No byte of a text is a line end.
abbrev pub one_line : Bytes → Bool
one_line = all (λ c. not (is_line_end c))

pub without_line_ends-one_line : (s : Bytes) → one_line s ≡ true → without_line_ends s ≡ s
without_line_ends-one_line [] h = refl
without_line_ends-one_line (c ∷ s) h = ground (arith, without_line_ends-one_line s)

one_line-encode_base64 : (bs : Bytes) → are_bytes bs ≡ true → one_line (encode_base64 bs) ≡ true
unfolding encode_base64
one_line-encode_base64 [] h = refl
one_line-encode_base64 (a ∷ []) h =
    rw (digit_no_line_end (a / 4) (ground arith), digit_no_line_end (a % 4 * 16) (ground arith))
one_line-encode_base64 (a ∷ b ∷ []) h = rw (
  digit_no_line_end (a / 4) (ground arith),
  digit_no_line_end (a % 4 * 16 + b / 16) (ground arith),
  digit_no_line_end (b % 16 * 4) (ground arith),
)
one_line-encode_base64 (a ∷ b ∷ c ∷ rest) h =
    rw
      (
        digit_no_line_end (a / 4) (ground arith),
        digit_no_line_end (a % 4 * 16 + b / 16) (ground arith),
        digit_no_line_end (b % 16 * 4 + c / 64) (ground arith),
        digit_no_line_end (c % 64) (ground arith),
      )
      (one_line-encode_base64 rest (ground arith))

decode_full :
    (w x y z : ℕ) (s : Bytes)
    → (z == b'=') ≡ false
    → decode_groups (w ∷ x ∷ y ∷ z ∷ s)
      ≡ full_group
          (base64_value w)
          (base64_value x)
          (base64_value y)
          (base64_value z)
          (decode_groups s)
decode_full w x y z [] h = rw h
decode_full w x y z (c ∷ s) h = refl

decode_groups-encode_base64 :
    (bs : Bytes) → are_bytes bs ≡ true → decode_groups (encode_base64 bs) ≡ some bs
unfolding encode_base64
decode_groups-encode_base64 [] h = refl
decode_groups-encode_base64 (a ∷ []) h =
    rw (value-digit (a / 4) (ground arith))
      (rw (value-digit (a % 4 * 16) (ground arith)) (ground arith))
decode_groups-encode_base64 (a ∷ b ∷ []) h = rw (digit_no_pad (b % 16 * 4) (ground arith)) (
    rw (value-digit (a / 4) (ground arith)) (
      rw (value-digit (a % 4 * 16 + b / 16) (ground arith))
        (rw (value-digit (b % 16 * 4) (ground arith)) (ground arith))))
decode_groups-encode_base64 (a ∷ b ∷ c ∷ rest) h =
    rw
      (decode_full _ _ _ (base64_digit (c % 64)) (encode_base64 rest)
        (digit_no_pad (c % 64) (ground arith)))
      (rw (value-digit (a / 4) (ground arith)) (
        rw (value-digit (a % 4 * 16 + b / 16) (ground arith)) (
          rw (value-digit (b % 16 * 4 + c / 64) (ground arith)) (
            rw (value-digit (c % 64) (ground arith))
              (rw (decode_groups-encode_base64 rest (ground arith)) (ground arith))))))

pub decode_base64-encode_base64 :
    (bs : Bytes) → are_bytes bs ≡ true → decode_base64 (encode_base64 bs) ≡ some bs
unfolding decode_base64
decode_base64-encode_base64 bs h =
    rw (without_line_ends-one_line (encode_base64 bs) (one_line-encode_base64 bs h))
      (decode_groups-encode_base64 bs h)
