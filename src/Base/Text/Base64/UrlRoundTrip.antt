-- ===== src/Base/Text/Base64/UrlRoundTrip.antt =====
-- Decoding what the encoder of base64.RawURLEncoding writes.
use Prim.Native.Nat.{ℕ, ◌+◌, ◌*◌, ◌/◌, ◌%◌, ◌<◌}
use mathlib.Core.Bool.{Bool, true, not}
use mathlib.Core.List.{[], ◌∷◌}
use mathlib.Core.Option.{some}
use mathlib.Core.Path.{◌≡◌, refl}
use mathlib.Core.Logic.{◌≢◌}
use native.Mathlib.Omega.{arith}
use ans_sdk_go.Base.Equality.{Bytes, ◌==◌, nat_eq}
use ans_sdk_go.Base.Lists.{all}
use ans_sdk_go.Base.Text.Hex.{are_bytes}
use ans_sdk_go.Base.Text.Base64.{
  base64_digit, base64_value, url_digit, url_value, encode_base64url, decode_base64url,
  decode_url_groups, is_line_end,
}
use ans_sdk_go.Base.Text.Base64.RoundTrip.{without_line_ends-one_line}

value-digit : (n : ℕ) → n < 64 → url_value (url_digit n) ≡ some n
unfolding base64_value base64_digit url_value url_digit
value-digit n h = ground arith

-- What holds for each digit holds for the bytes of a text.
module _ (holds : ℕ → Bool) (each : (n : ℕ) → n < 64 → holds (url_digit n) ≡ true) where
  pub encode_base64url-all :
      (bs : Bytes) → are_bytes bs ≡ true → all holds (encode_base64url bs) ≡ true
  unfolding encode_base64url
  encode_base64url-all [] h = refl
  encode_base64url-all (a ∷ []) h =
      rw (each (a / 4) (ground arith), each (a % 4 * 16) (ground arith)) refl
  encode_base64url-all (a ∷ b ∷ []) h =
      rw
        (
          each (a / 4) (ground arith),
          each (a % 4 * 16 + b / 16) (ground arith),
          each (b % 16 * 4) (ground arith),
        )
        refl
  encode_base64url-all (a ∷ b ∷ c ∷ rest) h =
      rw
        (
          each (a / 4) (ground arith),
          each (a % 4 * 16 + b / 16) (ground arith),
          each (b % 16 * 4 + c / 64) (ground arith),
          each (c % 64) (ground arith),
        )
        (encode_base64url-all rest (ground arith))

not_line_end : (n : ℕ) → n < 64 → not (is_line_end (url_digit n)) ≡ true
unfolding base64_digit url_digit
not_line_end n h = ground arith

not_dot : (n : ℕ) → n < 64 → not (url_digit n == b'.') ≡ true
unfolding base64_digit url_digit
not_dot n h = ground arith

pub encode_base64url-no_dot :
    (bs : Bytes) → are_bytes bs ≡ true → all (λ c. not (c == b'.')) (encode_base64url bs) ≡ true
encode_base64url-no_dot bs h = encode_base64url-all (λ c. not (c == b'.')) not_dot bs h

pub encode_base64url-some : (b : ℕ) (bs : Bytes) → encode_base64url (b ∷ bs) ≢ []
unfolding encode_base64url
encode_base64url-some b [] h = cc
encode_base64url-some b (c ∷ []) h = cc
encode_base64url-some b (c ∷ d ∷ bs) h = cc

decode_url_groups-encode_base64url :
    (bs : Bytes) → are_bytes bs ≡ true → decode_url_groups (encode_base64url bs) ≡ some bs
unfolding encode_base64url
decode_url_groups-encode_base64url [] h = refl
decode_url_groups-encode_base64url (a ∷ []) h =
    rw (value-digit (a / 4) (ground arith))
      (rw (value-digit (a % 4 * 16) (ground arith)) (ground arith))
decode_url_groups-encode_base64url (a ∷ b ∷ []) h = rw (value-digit (a / 4) (ground arith)) (
    rw (value-digit (a % 4 * 16 + b / 16) (ground arith))
      (rw (value-digit (b % 16 * 4) (ground arith)) (ground arith)))
decode_url_groups-encode_base64url (a ∷ b ∷ c ∷ rest) h = rw (value-digit (a / 4) (ground arith)) (
    rw (value-digit (a % 4 * 16 + b / 16) (ground arith)) (
      rw (value-digit (b % 16 * 4 + c / 64) (ground arith)) (
        rw (value-digit (c % 64) (ground arith))
          (rw (decode_url_groups-encode_base64url rest (ground arith)) (ground arith)))))

pub decode_base64url-encode_base64url :
    (bs : Bytes) → are_bytes bs ≡ true → decode_base64url (encode_base64url bs) ≡ some bs
unfolding decode_base64url
decode_base64url-encode_base64url bs h =
    rw
      (without_line_ends-one_line (encode_base64url bs)
        (encode_base64url-all (λ c. not (is_line_end c)) not_line_end bs h))
      (decode_url_groups-encode_base64url bs h)
