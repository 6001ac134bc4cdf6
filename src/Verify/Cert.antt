-- ===== src/Verify/Cert.antt =====
-- verify/cert.go, less the functions that read an X.509 certificate.
pub mod Fingerprint
use ans_sdk_go.Base.{
  ℕ, ◌++◌, ◌==◌, nat_eq, bytes_eq, Bool, true, false, Option, none, some, List, [], ◌∷◌, not, ltb,
  if◌then◌else◌, length, Bytes, codes,
}
use ans_sdk_go.Base.Text.{has_prefix, cut_prefix, to_lower, split_n}
use ans_sdk_go.Base.Text.Hex.{encode_hex, decode_hex}
use ans_sdk_go.Models.Version.{Version, VersionError, ok, err, parse_version}

-- The 32 bytes of a SHA-256 digest.
pub record CertFingerprint : Type 0 where
  pub bytes : Bytes

pub data FingerprintError : Type 0 where
  bad_prefix bad_hex : FingerprintError
  bad_length : ℕ → FingerprintError

pub data FingerprintResult : Type 0 where
  parsed : CertFingerprint → FingerprintResult
  refused : FingerprintError → FingerprintResult

abbrev pub sha256_len : ℕ
sha256_len = 32

-- The end of the function, after the prefix.
unfoldable pub parse_hex_part : Bytes → FingerprintResult
parse_hex_part hex_str = elim (decode_hex hex_str) [
  | none ↦ refused bad_hex
  | some decoded ↦
      if not (length decoded == sha256_len)
      then refused (bad_length (length decoded))
      else parsed (record { bytes = decoded })
]

unfoldable pub parse_cert_fingerprint : Bytes → FingerprintResult
unfolding parse_hex_part
parse_cert_fingerprint s = elim (cut_prefix s (codes "SHA256:")) [
  | some hex_str ↦ parse_hex_part hex_str
  | none ↦ elim (cut_prefix s (codes "sha256:")) [
    | some hex_str ↦ parse_hex_part hex_str
    | none ↦ refused bad_prefix
  ]
]

unfoldable pub fingerprint_string : CertFingerprint → Bytes
fingerprint_string f = codes "SHA256:" ++ encode_hex f.bytes

unfoldable pub to_hex : CertFingerprint → Bytes
to_hex f = encode_hex f.bytes

unfoldable pub matches : CertFingerprint → Bytes → Bool
unfolding parse_cert_fingerprint
matches f other = elim (parse_cert_fingerprint other) [
  | refused e ↦ false
  | parsed g ↦ f.bytes == g.bytes
]

pub record AnsName : Type 0 where
  pub version : Version
  pub host : Bytes
  pub raw : Bytes

pub data AnsNameError : Type 0 where
  empty_name no_scheme no_v too_few_parts : AnsNameError
  bad_version : VersionError → AnsNameError

pub data AnsNameResult : Type 0 where
  named : AnsName → AnsNameResult
  not_named : AnsNameError → AnsNameResult

unfoldable pub parse_name_parts : Bytes → List Bytes → AnsNameResult
parse_name_parts uri (a ∷ b ∷ c ∷ host ∷ more) =
    elim (parse_version (a ++ b'.' ∷ (b ++ b'.' ∷ c))) [
      | err e ↦ not_named (bad_version e)
      | ok version ↦ named (record { version = version; host = to_lower host; raw = uri })
    ]
parse_name_parts uri parts = not_named too_few_parts

unfoldable pub parse_ans_name : Bytes → AnsNameResult
unfolding parse_name_parts
parse_ans_name uri =
    if uri == [] then not_named empty_name else elim (cut_prefix uri (codes "ans://")) [
      | none ↦ not_named no_scheme
      | some rest ↦
          if not (has_prefix rest (b'v' ∷ []))
          then not_named no_v
          else parse_name_parts uri (split_n b'.' 4 rest)
    ]

pub record CertIdentity : Type 0 where
  pub common_name : Option Bytes
  pub dns_sans : List Bytes
  pub uri_sans : List Bytes
  pub fingerprint : CertFingerprint
  pub raw_der : Bytes
  pub spki_raw : Bytes

unfoldable pub new_cert_identity :
    Option Bytes → List Bytes → List Bytes → CertFingerprint → CertIdentity
new_cert_identity cn dns uris f = record {
  common_name = cn;
  dns_sans = dns;
  uri_sans = uris;
  fingerprint = f;
  raw_der = [];
  spki_raw = [];
}

unfoldable pub cert_identity_from_fingerprint_and_cn : CertFingerprint → Bytes → CertIdentity
unfolding new_cert_identity
cert_identity_from_fingerprint_and_cn f cn = new_cert_identity (some cn) (cn ∷ []) [] f

unfoldable pub cert_fqdn : CertIdentity → Option Bytes
cert_fqdn c = elim c.dns_sans [ [] ↦ c.common_name | first ∷ rest ↦ some first ]

-- The loop over the URI SANs.
unfoldable pub first_ans_name : List Bytes → Option AnsName
unfolding parse_ans_name
first_ans_name [] = none
first_ans_name (uri ∷ uris) =
    let rest = first_ans_name uris in
    if has_prefix uri (codes "ans://")
    then elim (parse_ans_name uri) [ named name ↦ some name | not_named e ↦ rest ]
    else rest

unfoldable pub cert_ans_name : CertIdentity → Option AnsName
unfolding first_ans_name
cert_ans_name c = first_ans_name c.uri_sans

unfoldable pub cert_version : CertIdentity → Option Version
unfolding cert_ans_name
cert_version c = elim (cert_ans_name c) [ none ↦ none | some name ↦ some name.version ]
