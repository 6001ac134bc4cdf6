-- ===== src/Verify/Cert/Fingerprint.antt =====
-- Fingerprints: the text form is read back, and matching a text is equality of the digests.
use ans_sdk_go.Base.{
  ◌≡◌, ◌↔◌, refl, ◌∙◌, true, arith, length, nat_eq, bytes_eq, bytes_beq_iff, eq→beq_true,
}
use ans_sdk_go.Base.Text.{cut_prefix}
use ans_sdk_go.Base.Text.Hex.{encode_hex, are_bytes, decode_hex-encode_hex}
use ans_sdk_go.Verify.Cert.{
  CertFingerprint, parsed, parse_hex_part, parse_cert_fingerprint, fingerprint_string, matches,
}

-- A digest: 32 bytes.
abbrev pub IsDigest : CertFingerprint → Type 0
IsDigest f = (length f.bytes ≡ 32) × (are_bytes f.bytes ≡ true)

parse_hex_part-encode_hex :
    (f : CertFingerprint) → IsDigest f → parse_hex_part (encode_hex f.bytes) ≡ parsed f
unfolding parse_hex_part
parse_hex_part-encode_hex f d =
    rw (decode_hex-encode_hex f.bytes d.1, parse_hex_part)
      (rw (eq→beq_true (length f.bytes) 32 d.0) refl)

prefix_read :
    (f : CertFingerprint)
    → parse_cert_fingerprint (fingerprint_string f) ≡ parse_hex_part (encode_hex f.bytes)
unfolding parse_cert_fingerprint fingerprint_string cut_prefix
prefix_read f = refl

-- The text form of a fingerprint of 32 bytes is parsed to the same fingerprint.
pub parse_cert_fingerprint-fingerprint_string :
    (f : CertFingerprint) → IsDigest f → parse_cert_fingerprint (fingerprint_string f) ≡ parsed f
parse_cert_fingerprint-fingerprint_string f d = prefix_read f ∙ parse_hex_part-encode_hex f d

-- A fingerprint matches the text form of another of 32 bytes exactly if they are equal.
pub matches-fingerprint_string :
    (f g : CertFingerprint) → IsDigest g → (matches f (fingerprint_string g) ≡ true) ↔ (f ≡ g)
unfolding matches
matches-fingerprint_string f g d =
    rw (parse_cert_fingerprint-fingerprint_string g d, matches)
      (ground (arith, bytes_beq_iff f.bytes g.bytes))
