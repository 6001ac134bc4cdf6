-- ===== src/Pop/Jws.antt =====
-- pop/jws.go: compact JWS with ES256. ecdsa.Verify is an argument, and so is SHA-256; a key is the
-- two coordinates of its point.
pub mod RoundTrip
use ans_sdk_go.Base.{
  ℕ, zero, suc, ◌+◌, ◌*◌, ◌/◌, ◌%◌, ◌==◌, nat_eq, bytes_eq, Bool, not, ◌||◌, List, [], ◌∷◌, ◌++◌,
  length, take, drop, Bytes,
}
use ans_sdk_go.Base.Text.{split}
use ans_sdk_go.Base.Text.Base64.{decode_base64url}
use ans_sdk_go.Pop.Errors.{
  Step, passed, refused, malformed_proof, signature_invalid, ◌>>=◌, ◌>>◌, refuse_if, or_refuse,
}

-- A point of P-256, as ecdsa.PublicKey has it.
pub record EcKey : Type 0 where
  pub x : ℕ
  pub y : ℕ

abbrev pub p256_sig_len : ℕ
p256_sig_len = 64

abbrev pub coord_len : ℕ
coord_len = 32

-- SetBytes of math/big: the bytes as a number, the greatest first.
abbrev pub set_bytes_after : ℕ → Bytes → ℕ
set_bytes_after n [] = n
set_bytes_after n (b ∷ bs) = set_bytes_after (n * 256 + b) bs

abbrev pub set_bytes : Bytes → ℕ
set_bytes bs = set_bytes_after 0 bs

-- FillBytes of math/big, for a number that fits in the width.
unfoldable pub fill_bytes : ℕ → ℕ → Bytes
fill_bytes zero n = []
fill_bytes (suc width) n = fill_bytes width (n / 256) ++ (n % 256 ∷ [])

abbrev pub three_segments : List Bytes → Step (Bytes × Bytes × Bytes)
three_segments (header ∷ payload ∷ signature ∷ []) = do
  refuse_if (header == [] || (payload == [] || signature == [])) malformed_proof
  passed (header, payload, signature)
three_segments parts = refused malformed_proof

unfoldable pub split_compact_jws : Bytes → Step (Bytes × Bytes × Bytes)
split_compact_jws token = three_segments (split b'.' token)

unfoldable pub jws_signing_input : (header_b64 payload_b64 : Bytes) → Bytes
jws_signing_input header_b64 payload_b64 = header_b64 ++ (b'.' ∷ payload_b64)

unfoldable pub verify_es256 :
    (sha256 : Bytes → Bytes) (ecdsa_verify : EcKey → Bytes → ℕ → ℕ → Bool)
    → EcKey
    → (signing_input sig_b64 : Bytes) → Step (Unit {0})
verify_es256 sha256 ecdsa_verify key signing_input sig_b64 = do
  sig ← or_refuse (decode_base64url sig_b64) malformed_proof
  refuse_if (not (length sig == p256_sig_len)) signature_invalid
  refuse_if
      (not (
        ecdsa_verify key (sha256 signing_input) (set_bytes (take coord_len sig))
          (set_bytes (drop coord_len sig))))
      signature_invalid
