-- ===== src/Verify/Dane/Reject.antt =====
-- When DANE rejects a certificate, and what a match is.
use ans_sdk_go.Base.{
  ℕ, ◌≡◌, ◌≢◌, ◌∙◌, sym, ◌<◌, ◌↔◌, ◌⊎◌, refl, true, false, none, some, List, [], ◌∷◌, arith, nat_eq,
  bytes_eq, bytes_beq_iff, length, Bool, Option, Bool-cases, Bytes, Option-cases, inl, inr,
}
use ans_sdk_go.Base.Text.{to_lower}
use ans_sdk_go.Models.Fqdn.{Fqdn}
use ans_sdk_go.Verify.Cert.{CertIdentity, to_hex}
use ans_sdk_go.Verify.Dane.{
  TlsaRecord, TlsaReply, tlsa_error, tlsa_result, is_reject, tlsa_association, record_matches,
  der_matches, find_match, match_records, after_lookup, dane_verify,
}
use ans_sdk_go.Verify.Errors.{is_dnssec_failure}

apart : Bool.true ≢ false
apart h = cc

found : (rec : TlsaRecord) → Option.some rec ≢ none
found rec h = cc

module _ (sha256 sha512 : Bytes → Bytes) where
  -- What a record that matches says: it is a DANE-EE record, and its data in lower case is what the
  -- certificate has for its selector and matching type; of a certificate without DER, only the
  -- SHA-256 of the whole certificate is compared.
  abbrev pub IsMatch : CertIdentity → TlsaRecord → Type 0
  IsMatch cert rec =
      (rec.usage ≡ 3)
      × (((0 < length cert.raw_der)
            × (tlsa_association sha256 sha512 cert rec.selector rec.matching_type
                ≡ some (to_lower rec.cert_hash)))
          ⊎ ((length cert.raw_der ≡ 0)
              × (rec.selector ≡ 0)
              × (rec.matching_type ≡ 1)
              × (to_lower rec.cert_hash ≡ to_lower (to_hex cert.fingerprint))))

  der_matches_iff :
      (cert : CertIdentity) (rec : TlsaRecord)
      → (der_matches sha256 sha512 cert rec ≡ true) ↔ (
          tlsa_association sha256 sha512 cert rec.selector rec.matching_type
          ≡ some (to_lower rec.cert_hash))
  unfolding der_matches
  der_matches_iff cert rec =
      elim (Option-cases (tlsa_association sha256 sha512 cert rec.selector rec.matching_type)) [
        | inl e ↦ rw (e, der_matches) ((λ h. cc), (λ h. cc))
        | inr (want, e) ↦
            rw (e, der_matches) (ground (arith, bytes_beq_iff want (to_lower rec.cert_hash)))
      ]

  -- A record matches a certificate exactly if it says so in this sense.
  pub record_matches_iff :
      (cert : CertIdentity) (rec : TlsaRecord)
      → (record_matches sha256 sha512 cert rec ≡ true) ↔ IsMatch cert rec
  unfolding record_matches
  record_matches_iff cert rec = ground (
    arith,
    der_matches_iff cert rec,
    bytes_beq_iff (to_lower rec.cert_hash) (to_lower (to_hex cert.fingerprint)),
  )

  -- No record of a list matches.
  abbrev pub NoMatch : CertIdentity → List TlsaRecord → Type 0
  NoMatch cert [] = Unit
  NoMatch cert (rec ∷ recs) = (¬ IsMatch cert rec) × NoMatch cert recs

  -- The answers that reject: DNSSEC failed, or a validated answer has records and none matches.
  abbrev pub Rejects : CertIdentity → TlsaReply → Type 0
  Rejects cert (tlsa_error e) = is_dnssec_failure e ≡ true
  Rejects cert (tlsa_result r) = (r.found ≡ true) × (r.dnssec_valid ≡ true) × NoMatch cert r.records

  find_match-NoMatch :
      (cert : CertIdentity) (recs : List TlsaRecord)
      → (find_match sha256 sha512 cert recs ≡ none) ↔ NoMatch cert recs
  unfolding find_match
  find_match-NoMatch cert [] = ((λ h. tt), (λ h. refl))
  find_match-NoMatch cert (rec ∷ recs) = elim (Bool-cases (record_matches sha256 sha512 cert rec)) [
    | inl k ↦
        rw k ((λ h. absurd (found rec h)), (λ h. absurd (h.0 ((record_matches_iff cert rec).0 k))))
    | inr k ↦ rw k (
      (λ h. (
        (λ m. apart (sym ((record_matches_iff cert rec).1 m) ∙ k)),
        (find_match-NoMatch cert recs).0 h,
      )),
      (λ h. (find_match-NoMatch cert recs).1 h.1),
    )
  ]

  match_records-reject :
      (cert : CertIdentity) (recs : List TlsaRecord)
      → (is_reject (match_records sha256 sha512 cert recs).dane_type ≡ true) ↔ NoMatch cert recs
  unfolding match_records is_reject
  match_records-reject cert recs = elim (Option-cases (find_match sha256 sha512 cert recs)) [
    | inl e ↦ rw (e, match_records) ((λ h. (find_match-NoMatch cert recs).0 e), (λ h. refl))
    | inr (rec, e) ↦
        rw (e, match_records)
          ((λ h. cc), (λ n. absurd (found rec (sym e ∙ (find_match-NoMatch cert recs).1 n))))
  ]

  after_lookup-Rejects :
      (cert : CertIdentity) (reply : TlsaReply)
      → (is_reject (after_lookup sha256 sha512 cert reply).dane_type ≡ true) ↔ Rejects cert reply
  unfolding after_lookup is_reject
  after_lookup-Rejects cert (tlsa_error e) = ground arith
  after_lookup-Rejects cert (tlsa_result r) = ground (arith, match_records-reject cert r.records)

  -- DANE rejects a certificate exactly if DNSSEC validation failed, or a validated answer has
  -- records and none of them matches; without a validated answer it never rejects.
  pub dane_verify-Rejects_iff :
      (lookup_tlsa : Fqdn → ℕ → TlsaReply) (f : Fqdn) (port : ℕ) (cert : CertIdentity)
      → (is_reject (dane_verify sha256 sha512 lookup_tlsa f port (some cert)).dane_type ≡ true)
        ↔ Rejects cert (lookup_tlsa f port)
  unfolding dane_verify
  dane_verify-Rejects_iff lookup_tlsa f port cert = after_lookup-Rejects cert (lookup_tlsa f port)
