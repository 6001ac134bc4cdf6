-- ===== src/Tests/Fixtures.antt =====
-- A badge, a certificate and a configuration for the runs of the verifiers.
use ans_sdk_go.Base.{false, none, some, [], ◌∷◌, Bytes, codes}
use ans_sdk_go.Models.Badge.{Badge, BadgeStatus, CertAttestation, EventType}
use ans_sdk_go.Models.Fqdn.{Fqdn}
use ans_sdk_go.Verify.Cert.{CertIdentity}
use ans_sdk_go.Verify.Config.{
  VerifierConfig, AnsBadgeRecord, BadgeRecordSource, RecordReply, BadgeReply,
}
use ans_sdk_go.Verify.Environment.{Environment}
use ans_sdk_go.Verify.Outcome.{FailurePolicy}
use ans_sdk_go.Verify.UrlValidator.{UrlValidator, ParsedUrl}

abbrev pub digest : Bytes
digest =
    0 ∷ 255 ∷ 16 ∷ 1 ∷ 2 ∷ 3 ∷ 4 ∷ 5 ∷ 6 ∷ 7 ∷ 8 ∷ 9 ∷ 10 ∷ 11 ∷ 12 ∷ 13 ∷ 14 ∷ 15 ∷ 16 ∷ 17 ∷ 18
    ∷ 19 ∷ 20 ∷ 21 ∷ 22 ∷ 23 ∷ 24 ∷ 25 ∷ 26 ∷ 27 ∷ 28 ∷ 29 ∷ []

abbrev pub digest_text : Bytes
digest_text = codes "SHA256:00ff100102030405060708090a0b0c0d0e0f101112131415161718191a1b1c1d"

abbrev pub host : Fqdn
host = record { value = codes "a.example" }

abbrev pub attestation : CertAttestation
attestation = record { fingerprint = digest_text; cert_type = [] }

abbrev pub badge_with : BadgeStatus → Badge
badge_with s = record {
  status = s;
  payload = record {
    log_id = [];
    producer = record {
      event = record {
        ans_id = [];
        ans_name = codes "ans://v1.2.3.a.example";
        event_type = EventType.agent_registered;
        agent = record { host = codes "A.example"; name = []; version = [] };
        attestations = record {
          domain_validation = [];
          identity_cert = some attestation;
          server_cert = some attestation;
        };
        expires_at = none;
        issued_at = 0;
        ra_id = [];
        timestamp = 0;
      };
      key_id = [];
      signature = [];
    };
  };
  schema_version = [];
  badge_signature = none;
  merkle_proof = none;
}

abbrev pub badge : Badge
badge = badge_with BadgeStatus.active

abbrev pub cert : CertIdentity
cert = record {
  common_name = none;
  dns_sans = codes "a.example" ∷ [];
  uri_sans = codes "ans://v1.2.3.a.example" ∷ [];
  fingerprint = record { bytes = digest };
  raw_der = [];
  spki_raw = [];
}

abbrev pub badge_record : AnsBadgeRecord
badge_record = record {
  format_version = codes "ans-badge1";
  version = none;
  url = codes "https://log/x";
  source = BadgeRecordSource.ans_badge;
}

abbrev pub validator : UrlValidator
validator = record { trusted_domains = codes "log" ∷ [] }

abbrev pub log_url : ParsedUrl
log_url = record {
  scheme = codes "https";
  hostname = codes "Log";
  port = [];
  path = codes "/x";
  raw_query = [];
  host = codes "Log";
  has_user = false;
  fragment = [];
}

abbrev pub config : VerifierConfig
config = record {
  find_preferred_badge = λ f. RecordReply.lookup_record (some badge_record);
  find_badge_for_version = λ f v. RecordReply.lookup_record (some badge_record);
  fetch_from_log = λ url. BadgeReply.badge_found badge;
  failure_policy = FailurePolicy.fail_closed;
  max_staleness = 0;
  url_validator = some validator;
  lookup_tlsa = none;
  scitt_key_lookup = none;
  clock_skew_tolerance = 0;
}

abbrev pub env : Environment
env = record {
  at_start = 10;
  at_failure = 20;
  at_insert = 30;
  pick = λ ks. ks;
  url_parse = λ url. some log_url;
  sha256 = λ s. digest;
  sha512 = λ s. digest;
}
