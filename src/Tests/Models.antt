-- ===== src/Tests/Models.antt =====
-- models/version.go, models/fqdn.go and verify/cert.go on concrete texts.
use ans_sdk_go.Base.{◌≡◌, ◌↔◌, refl, true, [], ◌∷◌, arith, codes, bytes_beq, bytes_eq}
use ans_sdk_go.Base.Text.{
  has_prefix, cut_prefix, trim_prefix, trim_last, ends_with, to_lower, split, decimal, parse_uint32,
  digits_in, print_decimal,
}
use ans_sdk_go.Models.Fqdn.{Fqdn, check_label, check_labels, new_fqdn}
use ans_sdk_go.Models.Fqdn
use ans_sdk_go.Models.Fqdn.Canonical.{AllLabels, new_fqdn-canonical}
use ans_sdk_go.Models.Version.{
  Version, Comparison, less, same, compare, compare_numbers, is_less, parse_version, parse_split,
  parse_parts, version_string,
}
use ans_sdk_go.Models.Version
use ans_sdk_go.Models.Version.Order.{is_less_trans}
use ans_sdk_go.Models.Version.RoundTrip.{parse_version-version_string}
use ans_sdk_go.Verify.Cert.{
  CertFingerprint, parsed, parse_cert_fingerprint, fingerprint_string, matches,
}
use ans_sdk_go.Verify.Cert.Fingerprint.{
  parse_cert_fingerprint-fingerprint_string, matches-fingerprint_string,
}

program : Unit {0}
unfolding new_fqdn check_labels check_label trim_last split has_prefix ends_with bytes_beq compare
    compare_numbers is_less parse_version parse_split parse_parts version_string trim_prefix
    cut_prefix parse_uint32 decimal print_decimal digits_in
program = tt

abbrev v1 : Version
v1 = record { major = 1; minor = 10; patch = 4294967295 }

abbrev v2 : Version
v2 = record { major = 1; minor = 11; patch = 0 }

abbrev v3 : Version
v3 = record { major = 2; minor = 0; patch = 0 }

reads_version : parse_version (codes "1.11.0") ≡ Version.ok v2
unfolding program
reads_version = refl

parse_version-version_string_example : parse_version (version_string v1) ≡ Version.ok v1
parse_version-version_string_example =
    parse_version-version_string v1 (omega arith) (omega arith) (omega arith)

lower_12 : is_less v1 v2 ≡ true
unfolding program
lower_12 = refl

lower_23 : is_less v2 v3 ≡ true
unfolding program
lower_23 = refl

is_less_trans_example : is_less v1 v3 ≡ true
is_less_trans_example = is_less_trans v1 v2 v3 lower_12 lower_23

abbrev host : Fqdn
host = record { value = codes "agent-1.example.com" }

reads_host : new_fqdn (codes "Agent-1.Example.COM.") ≡ Fqdn.ok host
unfolding program
reads_host = refl

new_fqdn-canonical_example :
    AllLabels (split b'.' host.value)
    × (to_lower host.value ≡ host.value)
    × (new_fqdn host.value ≡ Fqdn.ok host)
new_fqdn-canonical_example = new_fqdn-canonical (codes "Agent-1.Example.COM.") host reads_host

abbrev print_1 : CertFingerprint
print_1 = record {
  bytes =
      0 ∷ 255 ∷ 16 ∷ 1 ∷ 2 ∷ 3 ∷ 4 ∷ 5 ∷ 6 ∷ 7 ∷ 8 ∷ 9 ∷ 10 ∷ 11 ∷ 12 ∷ 13 ∷ 14 ∷ 15 ∷ 16 ∷ 17 ∷ 18
      ∷ 19 ∷ 20 ∷ 21 ∷ 22 ∷ 23 ∷ 24 ∷ 25 ∷ 26 ∷ 27 ∷ 28 ∷ 29 ∷ [];
}

abbrev print_2 : CertFingerprint
print_2 = record { bytes = 7 ∷ [] }

parse_cert_fingerprint-fingerprint_string_example :
    parse_cert_fingerprint (fingerprint_string print_1) ≡ parsed print_1
parse_cert_fingerprint-fingerprint_string_example =
    parse_cert_fingerprint-fingerprint_string print_1 (refl, refl)

matches-fingerprint_string_example :
    (matches print_2 (fingerprint_string print_1) ≡ true) ↔ (print_2 ≡ print_1)
matches-fingerprint_string_example = matches-fingerprint_string print_2 print_1 (refl, refl)
