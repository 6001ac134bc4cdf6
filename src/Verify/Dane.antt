-- ===== src/Verify/Dane.antt =====
-- The verification of verify/dane.go. The DNS query is the argument `lookup_tlsa`.
pub mod Reject
use ans_sdk_go.Base.{
  ℕ, ◌==◌, nat_eq, bytes_eq, Bool, true, false, Option, none, some, List, [], ◌∷◌, not, ltb, ◌&&◌,
  ◌||◌, if◌then◌else◌, length, Bytes, codes,
}
use ans_sdk_go.Base.Text.{to_lower}
use ans_sdk_go.Base.Text.Hex.{encode_hex}
use ans_sdk_go.Models.Fqdn.{Fqdn}
use ans_sdk_go.Verify.Cert.{CertIdentity, to_hex}
use ans_sdk_go.Verify.Errors.{VerifyError, is_dnssec_failure}

pub record TlsaRecord : Type 0 where
  pub usage : ℕ
  pub selector : ℕ
  pub matching_type : ℕ
  pub cert_hash : Bytes

pub record TlsaLookupResult : Type 0 where
  pub found : Bool
  pub records : List TlsaRecord
  pub dnssec_valid : Bool

-- The two results of LookupTLSA.
pub data TlsaReply : Type 0 where
  tlsa_error : VerifyError → TlsaReply
  tlsa_result : TlsaLookupResult → TlsaReply

pub data DaneOutcomeType : Type 0 where
  dane_verified dane_mismatch dane_skipped dane_dnssec_failed dane_no_records dane_lookup_error :
      DaneOutcomeType

pub record DaneOutcome : Type 0 where
  pub dane_type : DaneOutcomeType
  pub records : List TlsaRecord
  pub matched_record : Option TlsaRecord
  pub error : Option VerifyError

unfoldable pub is_pass : DaneOutcomeType → Bool
is_pass dane_verified = true
is_pass dane_skipped = true
is_pass dane_no_records = true
is_pass t = false

unfoldable pub is_reject : DaneOutcomeType → Bool
is_reject dane_mismatch = true
is_reject dane_dnssec_failed = true
is_reject t = false

unfoldable pub is_error : DaneOutcomeType → Bool
is_error dane_lookup_error = true
is_error t = false

abbrev pub plain_outcome : DaneOutcomeType → List TlsaRecord → DaneOutcome
plain_outcome t records = record {
  dane_type = t;
  records = records;
  matched_record = none;
  error = none;
}

abbrev pub error_outcome : DaneOutcomeType → Option VerifyError → DaneOutcome
error_outcome t e = record { dane_type = t; records = []; matched_record = none; error = e }

abbrev pub nil_certificate : VerifyError
nil_certificate = VerifyError.other_error (codes "nil certificate identity")

module _ (sha256 sha512 : Bytes → Bytes) where
  -- The data that a selector takes, `none` for an unrecognized one.
  abbrev pub selected_data : CertIdentity → ℕ → Option Bytes
  selected_data cert selector =
      if selector == 0
      then some cert.raw_der
      else if selector == 1
      then some cert.spki_raw
      else none

  abbrev pub hashed_data : Bytes → ℕ → Option Bytes
  hashed_data data_bytes matching_type =
      if matching_type == 0
      then some (encode_hex data_bytes)
      else if matching_type == 1
      then some (encode_hex (sha256 data_bytes))
      else if matching_type == 2
      then some (encode_hex (sha512 data_bytes))
      else none

  unfoldable pub tlsa_association : CertIdentity → ℕ → ℕ → Option Bytes
  tlsa_association cert selector matching_type = elim (selected_data cert selector) [
    | none ↦ none
    | some data_bytes ↦
        if length data_bytes == 0 then none else hashed_data data_bytes matching_type
  ]

  -- The test of a record against a certificate that has its DER encoding.
  unfoldable pub der_matches : CertIdentity → TlsaRecord → Bool
  unfolding tlsa_association
  der_matches cert rec = elim (tlsa_association cert rec.selector rec.matching_type) [
    | none ↦ false
    | some want ↦ want == to_lower rec.cert_hash
  ]

  -- What a pass of the loop over the records decides for a record.
  unfoldable pub record_matches : CertIdentity → TlsaRecord → Bool
  unfolding der_matches
  record_matches cert rec =
      if not (rec.usage == 3)
      then false
      else if ltb 0 (length cert.raw_der)
      then der_matches cert rec
      else if not (rec.selector == 0) || not (rec.matching_type == 1)
      then false
      else to_lower rec.cert_hash == to_lower (to_hex cert.fingerprint)

  unfoldable pub find_match : CertIdentity → List TlsaRecord → Option TlsaRecord
  unfolding record_matches
  find_match cert [] = none
  find_match cert (rec ∷ recs) =
      let rest = find_match cert recs in if record_matches cert rec then some rec else rest

  -- What `Verify` makes of the records of a validated answer.
  unfoldable pub match_records : CertIdentity → List TlsaRecord → DaneOutcome
  unfolding find_match
  match_records cert records = elim (find_match cert records) [
    | none ↦ plain_outcome dane_mismatch records
    | some rec ↦ record {
      dane_type = dane_verified;
      records = records;
      matched_record = some rec;
      error = none;
    }
  ]

  unfoldable pub after_lookup : CertIdentity → TlsaReply → DaneOutcome
  unfolding match_records
  after_lookup cert (tlsa_error e) =
      if is_dnssec_failure e
      then error_outcome dane_dnssec_failed (some e)
      else error_outcome dane_lookup_error (some e)
  after_lookup cert (tlsa_result result) =
      if not result.found
      then plain_outcome dane_no_records []
      else if not result.dnssec_valid
      then plain_outcome dane_skipped result.records
      else match_records cert result.records

  unfoldable pub dane_verify :
      (lookup_tlsa : Fqdn → ℕ → TlsaReply) → Fqdn → ℕ → Option CertIdentity → DaneOutcome
  unfolding after_lookup
  dane_verify lookup_tlsa fqdn port none = error_outcome dane_lookup_error (some nil_certificate)
  dane_verify lookup_tlsa fqdn port (some cert) = after_lookup cert (lookup_tlsa fqdn port)
